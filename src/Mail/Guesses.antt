-- ===== src/Mail/Guesses.antt =====
-- internal/mailer/mailer.go: how many guesses the codes allow, over sendings and checks in any order.
use meshbridge.Base.{
  ℕ, ◌+◌, ◌-◌, ◌≡◌, Bool, true, false, ◌&&◌, not, Option, none, some, List, [], ◌∷◌, ◌==◌, leb,
  if◌then◌else◌, length, sum_by, arith, Bool-cases, inl, inr, some_injective, subst,
}
use meshbridge.Base.Text.{Text}
use meshbridge.Mail.{
  MailCode, Mailbox, Knobs, usable_code, newest, stored_digest, check_code, send_code,
}

-- The guesses that a row still allows.
unfoldable pub guesses_left : MailCode → ℕ
guesses_left c = if c.used then 0 else 5 - c.attempts

abbrev pub allowance : List MailCode → ℕ
allowance = sum_by guesses_left

pub newest_lem :
    (p : MailCode → Bool) (rows : List MailCode) (c : MailCode)
    → newest p rows ≡ some c
    → p c ≡ true
unfolding newest
newest_lem p [] c h = absurd (cc)
newest_lem p (d ∷ rows) c h = elim (Bool-cases (p d)) [
  | inl here ↦ subst (λ e. p e ≡ true) (some_injective (ground arith)) here
  | inr there ↦ newest_lem p rows c (ground arith)
]

abbrev pub is_some : Option Text → Bool
is_some none = false
is_some (some d) = true

module _ (hash_code : Text → Text → Text) where
  -- Whether the answer of a check rests on the code that is given: a row with five attempts, or one
  -- whose hash cannot be read, refuses every code.
  unfoldable pub compares : Option MailCode → Bool
  unfolding stored_digest
  compares none = false
  compares (some c) = not (leb 5 c.attempts) && is_some (stored_digest c)

  abbrev pub looked_up : Bool → Text → Text → ℕ → Mailbox → Option MailCode
  looked_up up email purpose now m =
      if up then newest (usable_code email purpose now) m.rows else none

  unfoldable pub guessed : Bool → Text → Text → Text → ℕ → Mailbox → Bool
  unfolding compares
  guessed up email purpose code now m =
      length code == 6 && compares (looked_up up email purpose now m)

-- Sendings and checks in the order in which they happen.
pub data MailEvent : Type 0 where
  sending : (ℕ → Bool) → Knobs → Text → Text → Option Text → ℕ → ℕ → Bool → MailEvent
  checking : (ℕ → Bool) → Text → Text → Text → ℕ → MailEvent

abbrev pub Events : Type 0
Events = List MailEvent

abbrev pub sendings : Events → ℕ
sendings [] = 0
sendings (sending up k email purpose code now day_start ok ∷ es) = 1 + sendings es
sendings (checking up email purpose code now ∷ es) = sendings es

-- The update that follows the query of a check is carried out.
abbrev pub Counting : MailEvent → Type 0
Counting (sending up k email purpose code now day_start ok) = Unit
Counting (checking up email purpose code now) = up 1 ≡ true

module _ (hash_code : Text → Text → Text) (valid_email : Text → Bool) where
  -- The guesses among the checks: those whose answer rests on the code that is given.
  unfoldable pub guesses : Events → Mailbox → ℕ
  guesses [] m = 0
  guesses (sending up k email purpose code now day_start ok ∷ es) m =
      guesses es (send_code hash_code valid_email up k email purpose code now day_start ok m).0
  guesses (checking up email purpose code now ∷ es) m =
      let rest = guesses es (check_code hash_code up email purpose code now m).0 in
      (if guessed hash_code (up 0) email purpose code now m then 1 else 0) + rest
