-- ===== src/Mail/Sent.antt =====
-- internal/mailer/mailer.go: what SendCode and CheckCode leave in the table.
use meshbridge.Base.{
  ℕ, ◌≤◌, ◌<◌, ◌≡◌, refl, Bool, true, false, not, Option, none, some, List, [], ◌∷◌, ◌==◌, leb,
  if◌then◌else◌, length, map, keep, arith, if_elim, All, subst, some_injective, ap, ◌∙◌, Bool-cases,
  inl, inr,
}
use meshbridge.Base.Text.{Text, text_eq, text_eq_iff}
use meshbridge.Mail.{
  MailCode, Mailbox, Knobs, Sending, sent, is_purpose, sent_to, cooling, in_minute, since,
  count_rows, limit_reached, usable_code, newest, mark_used, stored_digest, compare_digest,
  try_code, check_code, new_code, drop_row, deliver, send_code,
}
use meshbridge.Mail.Guesses.{newest_lem}

-- Every row was stored before the next id.
abbrev pub Numbered : Mailbox → Type 0
Numbered m = All (λ (c : MailCode). c.id < m.next_id) m.rows

keep_every :
    (id n : ℕ) (rows : List MailCode)
    → n ≤ id
    → All (λ (c : MailCode). c.id < n) rows
    → keep (λ c. not (c.id == id)) rows ≡ rows
keep_every id n [] h every = refl
keep_every id n (c ∷ rows) h (first, every) = ground (arith, keep_every id n rows h every)

drop_new :
    (up : Bool) (row : MailCode) (m : Mailbox)
    → up ≡ true
    → row.id ≡ m.next_id
    → Numbered m
    → drop_row up m.next_id (row ∷ m.rows) ≡ m.rows
unfolding drop_row
drop_new false row m works own every = absurd (cc)
drop_new true row m works own every =
    ground (arith, keep_every m.next_id m.next_id m.rows (omega arith) every)

module _ (hash_code : Text → Text → Text) where
  -- A code that was sent, which `U` allows, is the newest row and was handed to the mail server; anything
  -- else leaves the rows and the mail server alone.
  abbrev pub Delivered :
      Type 0 → Knobs → Text → Text → Option Text → ℕ → Mailbox → Mailbox × Sending → Type 0
  Delivered U k email purpose code now m (m', sent seconds) =
      U
      × (c : Text) × (code ≡ some c)
      × (m'.rows ≡ new_code hash_code email purpose c now k.expire_minutes m.next_id ∷ m.rows)
      × (m'.delivered ≡ (email, c) ∷ m.delivered)
  Delivered U k email purpose code now m (m', _) = (m'.rows ≡ m.rows) × (m'.delivered ≡ m.delivered)

  deliver-Delivered :
      (U : Type 0) (up : ℕ → Bool) (k : Knobs) (email purpose : Text) (code : Option Text) (now : ℕ)
      (ok : Bool) (m : Mailbox)
      → U
      → up 4 ≡ true
      → Numbered m
      → Delivered U k email purpose code now m (deliver hash_code up k email purpose code now ok m)
  unfolding deliver
  deliver-Delivered U up k email purpose none now ok m u works every = (refl, refl)
  deliver-Delivered U up k email purpose (some code) now ok m u works every =
      let row = new_code hash_code email purpose code now k.expire_minutes m.next_id in
      let own : row.id ≡ m.next_id = unfold new_code in refl in
      if_elim (Delivered U k email purpose (some code) now m) (not (up 3)) (λ _. (refl, refl))
        (λ _.
          if_elim (Delivered U k email purpose (some code) now m) ok
            (λ _. (u, code, refl, refl, refl)) (λ _. (drop_new (up 4) row m works own every, refl)))

module _ (hash_code : Text → Text → Text) (valid_email : Text → Bool) where
  -- What holds of a sending that is not refused beforehand.
  abbrev pub Unhindered : (ℕ → Bool) → Knobs → Text → Text → ℕ → ℕ → Mailbox → Type 0
  Unhindered up k email purpose now day_start m =
      (valid_email email ≡ true)
      × (is_purpose purpose ≡ true)
      × (up 0 ≡ true
          → cooling now k.cooldown_seconds (newest (sent_to email purpose) m.rows) ≡ false)
      × (up 1 ≡ true → limit_reached k.minute_limit (count_rows (in_minute now) m.rows) ≡ false)
      × (up 2 ≡ true → limit_reached k.daily_limit (count_rows (since day_start) m.rows) ≡ false)

  -- A code is sent only to a valid address for a known purpose, after the cooldown of its address, and
  -- while the codes of the last minute and of the day are below their limits, as far as the queries are
  -- answered; it is then the newest row, unused and without attempts, and was handed to the mail server.
  -- Every error leaves the rows and the mail server as they were, also that of the delivery, when its
  -- row can be deleted. Rows carry ids below the next one.
  pub send_code-Delivered :
      (up : ℕ → Bool) (k : Knobs) (email purpose : Text) (code : Option Text) (now day_start : ℕ)
      (ok : Bool) (m : Mailbox)
      → up 4 ≡ true
      → Numbered m
      → Delivered hash_code
          (Unhindered up k email purpose now day_start m)
          k
          email
          purpose
          code
          now
          m
          (send_code hash_code valid_email up k email purpose code now day_start ok m)
  unfolding send_code
  send_code-Delivered up k email purpose code now day_start ok m works every =
      let last = if up 0 then newest (sent_to email purpose) m.rows else none in
      let minute = if up 1 then count_rows (in_minute now) m.rows else 0 in
      let day = if up 2 then count_rows (since day_start) m.rows else minute in
      let P =
        Delivered hash_code (Unhindered up k email purpose now day_start m) k email purpose code now
          m in
      if_elim P (not (valid_email email)) (λ _. (refl, refl))
        (λ valid.
          if_elim P (not (is_purpose purpose)) (λ _. (refl, refl))
            (λ known.
              if_elim P (cooling now k.cooldown_seconds last) (λ _. (refl, refl))
                (λ cool.
                  if_elim P (limit_reached k.minute_limit minute) (λ _. (refl, refl))
                    (λ calm.
                      if_elim P (limit_reached k.daily_limit day) (λ _. (refl, refl))
                        (λ early.
                          deliver-Delivered hash_code
                            (Unhindered up k email purpose now day_start m) up k email purpose code
                            now ok m
                            (
                              ground arith,
                              ground arith,
                              (λ on.
                                  subst
                                    (λ b.
                                      cooling now k.cooldown_seconds
                                        (if b then newest (sent_to email purpose) m.rows else none)
                                      ≡ false)
                                    on cool),
                              (λ on.
                                  subst
                                    (λ b.
                                      limit_reached k.minute_limit
                                        (if b then count_rows (in_minute now) m.rows else 0)
                                      ≡ false)
                                    on calm),
                              (λ on.
                                  subst
                                    (λ b.
                                      limit_reached k.daily_limit
                                        (if b then count_rows (since day_start) m.rows else minute)
                                      ≡ false)
                                    on early),
                            )
                            works every)))))

newest_of_map :
    (p : MailCode → Bool) (f : MailCode → MailCode) (rows : List MailCode) (d : MailCode)
    → newest p (map f rows) ≡ some d
    → (c : MailCode) × (d ≡ f c)
unfolding newest
newest_of_map p f [] d h = absurd (cc)
newest_of_map p f (c ∷ rows) d h = elim (Bool-cases (p (f c))) [
  | inl here ↦ (c, some_injective (ground arith))
  | inr there ↦ newest_of_map p f rows d (ground arith)
]

-- No row of this id is found by any check.
abbrev pub UsedUp : ℕ → Mailbox → Type 0
UsedUp id m =
    (email purpose : Text) (now : ℕ) (d : MailCode)
    → newest (usable_code email purpose now) m.rows ≡ some d
    → not (d.id == id) ≡ true

mark_used-UsedUp :
    (id : ℕ) (m : Mailbox) → UsedUp id (record m { rows = map (mark_used id) m.rows })
mark_used-UsedUp id m email purpose now d h =
    let (c, made) = newest_of_map (usable_code email purpose now) (mark_used id) m.rows d h in
    let fits = newest_lem (usable_code email purpose now) (map (mark_used id) m.rows) d h in
    unfold usable_code mark_used in ground arith

module _ (hash_code : Text → Text → Text) where
  -- The row that a check accepts: the newest of its address and purpose that is unused and not expired,
  -- with its code, and fewer than five attempts.
  abbrev pub Accepted : Text → Text → Text → ℕ → Mailbox → Mailbox → Type 0
  Accepted email purpose code now m m' =
      (c : MailCode) × (newest (usable_code email purpose now) m.rows ≡ some c)
      × (leb 5 c.attempts ≡ false)
      × (stored_digest c ≡ some (hash_code email code))
      × UsedUp c.id m'

  compare_digest-Accepted :
      (up : Bool) (email purpose code : Text) (now : ℕ) (c : MailCode) (m : Mailbox)
      (o : Option Text)
      → newest (usable_code email purpose now) m.rows ≡ some c
      → leb 5 c.attempts ≡ false
      → stored_digest c ≡ o
      → (compare_digest hash_code up email code c m o).1 ≡ true
      → Accepted email purpose code now m (compare_digest hash_code up email code c m o).0
  unfolding compare_digest
  compare_digest-Accepted up email purpose code now c m none found few digest = λ h. absurd (cc)
  compare_digest-Accepted up email purpose code now c m (some want) found few digest =
      let P : Mailbox × Bool → Type 0 = λ r. r.1 ≡ true → Accepted email purpose code now m r.0 in
      if_elim P (not (text_eq want (hash_code email code))) (λ _ h. absurd (cc))
        (λ right.
          if_elim P up
            (λ _ h.
              let same : want ≡ hash_code email code =
                (text_eq_iff want (hash_code email code)).0 (ground arith) in
              (c, found, few, digest ∙ ap some same, mark_used-UsedUp c.id m))
            (λ _ h. absurd (cc)))

  try_code-Accepted :
      (up : Bool) (email purpose code : Text) (now : ℕ) (o : Option MailCode) (m : Mailbox)
      → ((c : MailCode) → o ≡ some c → newest (usable_code email purpose now) m.rows ≡ some c)
      → (try_code hash_code up email code o m).1 ≡ true
      → Accepted email purpose code now m (try_code hash_code up email code o m).0
  unfolding try_code
  try_code-Accepted up email purpose code now none m found = λ h. absurd (cc)
  try_code-Accepted up email purpose code now (some c) m found =
      let P : Mailbox × Bool → Type 0 = λ r. r.1 ≡ true → Accepted email purpose code now m r.0 in
      if_elim P (leb 5 c.attempts) (λ _ h. absurd (cc))
        (λ few.
          compare_digest-Accepted up email purpose code now c m (stored_digest c) (found c refl) few
            refl)

  -- A check accepts only the code of the newest row of its address and purpose that is unused and not
  -- expired and had fewer than five attempts; from then on no check finds that row again.
  pub check_code-Accepted :
      (up : ℕ → Bool) (email purpose code : Text) (now : ℕ) (m : Mailbox)
      → (check_code hash_code up email purpose code now m).1 ≡ true
      → Accepted email purpose code now m (check_code hash_code up email purpose code now m).0
  unfolding check_code
  check_code-Accepted up email purpose code now m =
      let o = if up 0 then newest (usable_code email purpose now) m.rows else none in
      if_elim (λ (r : Mailbox × Bool). r.1 ≡ true → Accepted email purpose code now m r.0)
        (not (length code == 6)) (λ _ h. absurd (cc))
        (λ _. try_code-Accepted (up 1) email purpose code now o m (λ c h. ground arith))
