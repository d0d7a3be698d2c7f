-- ===== src/Api/Signup/Names.antt =====
-- internal/api/setup.go: the loop of sanitizeUsername ends at a free name.
use meshbridge.Base.{
  ℕ, zero, suc, ◌+◌, ◌≤◌, ◌<◌, ◌≡◌, ◌≢◌, refl, ◌∙◌, ap, sym, true, false, not, [], ◌∷◌, ◌++◌, arith,
  length, length-append, length-keep-le, keep, drop, Bool-cases, inl, inr, some_injective,
}
use meshbridge.Base.Decimal.{format_nat, scan, scan-format_nat}
use meshbridge.Base.Dict.{Dict}
use meshbridge.Base.Text.{Text, text_eq, text_eq_iff}
use meshbridge.Api.{User}
use meshbridge.Api.Signup.{candidate, name_taken, free_name, base_name, sanitize_username}

drop-append : (s t : Text) → drop (length s) (s ++ t) ≡ t
drop-append [] t = refl
drop-append (c ∷ s) t = drop-append s t

candidate_apart : (base : Text) (i j : ℕ) → i < j → candidate base j ≢ candidate base i
unfolding candidate
candidate_apart base zero zero h = absurd (omega arith)
candidate_apart base zero (suc j) h = λ same.
    let lengths = ap length same in
    absurd (omega (arith, length-append base (b'-' ∷ format_nat (j + 2))))
candidate_apart base (suc i) zero h = absurd (omega arith)
candidate_apart base (suc i) (suc j) h = λ same.
    let tails : format_nat (j + 2) ≡ format_nat (i + 2) = ap (drop 1) (
      sym (drop-append base (b'-' ∷ format_nat (j + 2)))
      ∙ ap (drop (length base)) same
      ∙ drop-append base (b'-' ∷ format_nat (i + 2))) in
    let numbers : j + 2 ≡ i + 2 =
      some_injective
        (sym (scan-format_nat (j + 2)) ∙ ap (λ t. scan t 0) tails ∙ scan-format_nat (i + 2)) in
    absurd (omega arith)

abbrev without : Text → Dict Text User → Dict Text User
without name users = keep (λ (e : Text × User). not (text_eq e.1.username name)) users

name_taken-without :
    (name other : Text) (users : Dict Text User)
    → name ≢ other
    → name_taken name (without other users) ≡ name_taken name users
unfolding name_taken
name_taken-without name other [] apart = refl
name_taken-without name other ((id, u) ∷ users) apart =
    elim (Bool-cases (text_eq u.username other)) [
      | inl same ↦
          let named : u.username ≡ other = (text_eq_iff u.username other).0 same in
          let not_name : text_eq u.username name ≡ false =
            ground (arith, text_eq_iff u.username name) in
          ground (arith, name_taken-without name other users apart)
      | inr differ ↦ ground (arith, name_taken-without name other users apart)
    ]

length-without :
    (name : Text) (users : Dict Text User)
    → name_taken name users ≡ true
    → length (without name users) + 1 ≤ length users
unfolding name_taken
length-without name [] h = absurd (cc)
length-without name ((id, u) ∷ users) h = ground (
  arith,
  length-keep-le (λ (e : Text × User). not (text_eq e.1.username name)) users,
  length-without name users,
)

module _ (base : Text) where
  -- The loop returns one of the candidates that are left.
  free_name_form :
      (fuel i : ℕ) (users : Dict Text User)
      → (k : ℕ) × (i ≤ k) × (free_name (λ _. true) base fuel i users ≡ candidate base k)
  unfolding free_name
  free_name_form zero i users = (i, omega arith, refl)
  free_name_form (suc fuel) i users = elim (Bool-cases (name_taken (candidate base i) users)) [
    | inl taken ↦
        let (k, behind, is) = free_name_form fuel (i + 1) users in (k, omega arith, rw taken is)
    | inr free ↦ (i, omega arith, rw free refl)
  ]

  -- Rows under an earlier candidate make no difference.
  free_name-without :
      (fuel i j : ℕ) (users : Dict Text User)
      → j < i
      → free_name (λ _. true) base fuel i (without (candidate base j) users)
        ≡ free_name (λ _. true) base fuel i users
  unfolding free_name
  free_name-without zero i j users h = refl
  free_name-without (suc fuel) i j users h =
      rw
        (
          name_taken-without (candidate base i) (candidate base j) users
              (candidate_apart base j i h),
          free_name-without fuel (i + 1) j users (omega arith),
        )
        refl

  free_name-Free :
      (fuel i : ℕ) (users : Dict Text User)
      → length users ≤ fuel
      → name_taken (free_name (λ _. true) base fuel i users) users ≡ false
  unfolding free_name
  free_name-Free zero i [] h = unfold name_taken in refl
  free_name-Free zero i (e ∷ users) h = absurd (omega arith)
  free_name-Free (suc fuel) i users h = elim (Bool-cases (name_taken (candidate base i) users)) [
    | inl taken ↦
        let others = without (candidate base i) users in
        let fewer : length others + 1 ≤ length users =
          length-without (candidate base i) users taken in
        let free_there = free_name-Free fuel (i + 1) others (omega arith) in
        let (k, behind, is) = free_name_form fuel (i + 1) users in
        let moved = free_name-without fuel (i + 1) i users (omega arith) in
        let free : name_taken (candidate base k) users ≡ false =
          sym (
            name_taken-without (candidate base k) (candidate base i) users
              (candidate_apart base i k (omega arith)))
          ∙ ap (λ t. name_taken t others) (sym (moved ∙ is))
          ∙ free_there in
        rw (taken, is) free
    | inr free ↦ rw free free
  ]

-- However many accounts there are, the loop ends within as many turns as accounts, and the name it
-- returns belongs to none of them, when each question is answered.
pub sanitize_username-Free :
    (email want : Text) (users : Dict Text User)
    → name_taken (sanitize_username (λ _. true) email want users) users ≡ false
unfolding sanitize_username
sanitize_username-Free email want users =
    free_name-Free (base_name email want) (length users) 0 users (omega arith)
