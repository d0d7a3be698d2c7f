-- ===== src/Tunnel/Gate/Cookie.antt =====
-- internal/tunnel/tunnel.go: SignGate and VerifyGate against each other, and the text they sign.
use meshbridge.Base.{
  ℕ, ◌+◌, ◌^◌, ◌≤◌, ◌<◌, ◌≡◌, refl, sym, ap, ◌≢◌, ◌⊎◌, ◌∙◌, drop, Bool, true, false, ◌&&◌, Option,
  none, some, [], ◌∷◌, ◌++◌, leb, All, arith, inl, inr,
}
use meshbridge.Base.Decimal.{
  ℤ, pos, negsuc, format_int, format_nat, All-format_nat, parse_int, parse_int-format_nat,
}
use meshbridge.Base.Text.{Text, text_eq, text_eq_iff, cut, cut-append, cut_found}
use meshbridge.Tunnel.Gate.{
  gate_text, in_time, less, signature, sign_gate, verify_expiry, verify_cut, verify_gate,
}

All-weaken {κ ν} :
    {P : ℕ → Type κ} {Q : ℕ → Type ν} → ((c : ℕ) → P c → Q c) → (s : Text) → All P s → All Q s
All-weaken f [] _ = tt
All-weaken f (c ∷ s) (p, h) = (f c p, All-weaken f s h)

-- No digit is the separator.
pub format_nat-clear : (n sep : ℕ) → (sep < 48) ⊎ (57 < sep) → All (λ c. c ≢ sep) (format_nat n)
format_nat-clear n sep h =
    All-weaken (λ c d. elim h [ inl l ↦ omega arith | inr l ↦ omega arith ]) (format_nat n)
      (All-format_nat n)

text_eq_self : (s : Text) → text_eq s s ≡ true
text_eq_self s = (text_eq_iff s s).1 refl

and_true : (b : Bool) → (b && true) ≡ b
and_true true = refl
and_true false = refl

in_time_lem : (n now : ℕ) → in_time (pos n) now ≡ (leb now n && leb n (now + 608400))
unfolding in_time less
in_time_lem n now = ground arith

module _ (hmac : Text → Text → Text) (secret slug : Text) where
  -- A cookie signed for a slug and an expiry of 63 bits is taken for that slug exactly while the
  -- expiry is neither past nor more than a week and an hour ahead.
  pub verify_gate-sign_gate :
      (n now : ℕ)
      → n < 2 ^ 63
      → verify_gate hmac secret slug (sign_gate hmac secret slug (pos n)) now
        ≡ (leb now n && leb n (now + 608400))
  unfolding verify_gate sign_gate verify_cut verify_expiry format_int
  verify_gate-sign_gate n now fits =
      rw
        (
          cut-append (format_nat n) (signature hmac secret slug (pos n)) b'.'
              (format_nat-clear n b'.' (inl (omega arith))),
          parse_int-format_nat n fits,
          text_eq_self (signature hmac secret slug (pos n)),
          and_true (in_time (pos n) now),
          in_time_lem n now,
        )
        refl

  -- What a value that is taken for an expiry looks like.
  abbrev pub Signed : Text → ℕ → ℕ → Type 0
  Signed value now n =
      (exp_s : Text) × (parse_int exp_s ≡ some (pos n))
      × (value ≡ exp_s ++ b'.' ∷ signature hmac secret slug (pos n))
      × (now ≤ n)
      × (n ≤ now + 608400)

  and_split : (a b : Bool) → (a && b) ≡ true → (a ≡ true) × (b ≡ true)
  and_split true b h = (refl, h)
  and_split false b h = absurd (cc)

  in_time_bounds :
      (exp : ℤ) (now : ℕ)
      → in_time exp now ≡ true
      → (n : ℕ) × (exp ≡ pos n) × (now ≤ n) × (n ≤ now + 608400)
  unfolding in_time less
  in_time_bounds (pos n) now h = (n, refl, ground arith, ground arith)
  in_time_bounds (negsuc n) now h = absurd (cc)

  expiry_sound :
      (value exp_s sig : Text) (now : ℕ) (parsed : Option ℤ)
      → parse_int exp_s ≡ parsed
      → value ≡ exp_s ++ b'.' ∷ sig
      → verify_expiry hmac secret slug sig now parsed ≡ true
      → (n : ℕ) × Signed value now n
  unfolding verify_expiry
  expiry_sound value exp_s sig now none p v h = absurd (cc)
  expiry_sound value exp_s sig now (some exp) p v h =
      let (timely, same) =
        and_split (in_time exp now) (text_eq sig (signature hmac secret slug exp)) h in
      let (n, e, low, high) = in_time_bounds exp now timely in
      let named : sig ≡ signature hmac secret slug exp =
        (text_eq_iff sig (signature hmac secret slug exp)).0 same in
      (
        n,
        (
          exp_s,
          p ∙ ap some e,
          v ∙ ap (λ s. exp_s ++ b'.' ∷ s) (named ∙ ap (signature hmac secret slug) e),
          low,
          high,
        ),
      )

  -- Whatever value is taken is an expiry, which is not past and at most a week and an hour ahead,
  -- followed by a dot and the signature of exactly this slug and this expiry under the secret.
  pub verify_gate_sound :
      (value : Text) (now : ℕ)
      → verify_gate hmac secret slug value now ≡ true
      → (n : ℕ) × Signed value now n
  unfolding verify_gate verify_cut
  verify_gate_sound value now h =
      let (exp_s, sig, ok) = cut value b'.' in
      let (found, taken) =
        and_split ok (verify_expiry hmac secret slug sig now (parse_int exp_s)) h in
      expiry_sound value exp_s sig now (parse_int exp_s) refl (cut_found value b'.' found) taken

number : Option ℤ → ℕ
number (some (pos n)) = n
number _ = 0

-- The text that is signed determines the slug and the expiry, for slugs without a bar and expiries of 63 bits: no cookie of
-- one tunnel is a cookie of another by the way the text is put together.
pub gate_text_injective :
    (slug other : Text) (m n : ℕ)
    → All (λ c. c ≢ b'|') slug
    → All (λ c. c ≢ b'|') other
    → m < 2 ^ 63
    → n < 2 ^ 63
    → gate_text slug (pos m) ≡ gate_text other (pos n)
    → (slug ≡ other) × (m ≡ n)
unfolding gate_text format_int number
gate_text_injective slug other m n hs ho fm fn h =
    let cut_of : (cut (slug ++ b'|' ∷ format_nat m) b'|')
        ≡ cut (other ++ b'|' ∷ format_nat n) b'|' =
      ap (λ t. cut (drop 8 t) b'|') h in
    let parts : (slug, format_nat m, true) ≡ (other, format_nat n, true) =
      sym (cut-append slug (format_nat m) b'|' hs)
      ∙ cut_of
      ∙ cut-append other (format_nat n) b'|' ho in
    let value : some (pos m) ≡ some (pos n) =
      sym (parse_int-format_nat m fm) ∙ ap (λ p. parse_int p.1) parts ∙ parse_int-format_nat n fn in
    (ap (λ p. p.0) parts, ap number value)
