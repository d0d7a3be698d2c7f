-- ===== src/Policy/Slugs.antt =====
-- internal/policy/policy.go: what Slugify makes of a name.
use meshbridge.Base.{
  ℕ, zero, suc, ◌≤◌, ◌<◌, ◌≡◌, ◌≢◌, ◌∙◌, refl, subst, Bool, true, false, ◌&&◌, ◌||◌, [], ◌∷◌, ◌++◌,
  length, all, ◌==◌, leb, if_elim, arith,
}
use meshbridge.Base.Text.{
  Text, codes, contains, has_prefix, is_found, strip, trim, trim_left, trim_space, to_lower,
}
use meshbridge.Policy.{slug_char, slug_chars, halve_dashes, single_dashes, or_proj, slugify}
use mathlib.Core.List.{reverse, reverse_aux}

-- Lower case letters, digits and dashes.
abbrev pub is_slug_char : ℕ → Bool
is_slug_char c = (leb b'a' c && leb c b'z') || (leb b'0' c && leb c b'9') || c == b'-'

all-append : (p : ℕ → Bool) (s t : Text) → all p s ≡ true → all p t ≡ true → all p (s ++ t) ≡ true
all-append p [] t hs ht = ht
all-append p (c ∷ s) t hs ht = ground (arith, all-append p s t)

all-slug_char : (c : ℕ) → all is_slug_char (slug_char c) ≡ true
unfolding slug_char
all-slug_char c =
    if_elim (λ (t : Text). all is_slug_char t ≡ true)
      ((leb b'a' c && leb c b'z') || (leb b'0' c && leb c b'9')) (λ plain. ground arith)
      (λ _.
        if_elim (λ (t : Text). all is_slug_char t ≡ true) (c == b' ' || c == b'_' || c == b'-')
          (λ _. refl) (λ _. refl))

all-slug_chars : (s : Text) → all is_slug_char (slug_chars s) ≡ true
unfolding slug_chars
all-slug_chars [] = refl
all-slug_chars (c ∷ s) =
    all-append is_slug_char (slug_char c) (slug_chars s) (all-slug_char c) (all-slug_chars s)

all-reverse_aux :
    (p : ℕ → Bool) (s t : Text) → all p s ≡ true → all p t ≡ true → all p (reverse_aux s t) ≡ true
all-reverse_aux p [] t hs ht = ht
all-reverse_aux p (c ∷ s) t hs ht = all-reverse_aux p s (c ∷ t) (ground arith) (ground arith)

all-trim_left : (p q : ℕ → Bool) (s : Text) → all p s ≡ true → all p (trim_left q s) ≡ true
unfolding trim_left
all-trim_left p q [] h = refl
all-trim_left p q (c ∷ s) h =
    if_elim (λ (t : Text). all p t ≡ true) (q c) (λ _. all-trim_left p q s (ground arith)) (λ _. h)

all-trim : (p q : ℕ → Bool) (s : Text) → all p s ≡ true → all p (trim q s) ≡ true
unfolding trim
all-trim p q s h =
    all-reverse_aux p (trim_left q (reverse (trim_left q s))) []
      (all-trim_left p q (reverse (trim_left q s))
        (all-reverse_aux p (trim_left q s) [] (all-trim_left p q s h) refl))
      refl

-- A pass over the dashes drops none but dashes, and shortens a text that holds two in a row.
all-halve_dashes :
    (p : ℕ → Bool) (s : Text) → all p s ≡ true → p b'-' ≡ true → all p (halve_dashes s) ≡ true
unfolding halve_dashes
all-halve_dashes p [] h d = refl
all-halve_dashes p (a ∷ []) h d = h
all-halve_dashes p (a ∷ b ∷ s) h d =
    if_elim (λ (t : Text). all p t ≡ true) (a == b'-' && b == b'-')
      (λ _. ground (arith, all-halve_dashes p s)) (λ _. ground (arith, all-halve_dashes p (b ∷ s)))

all-single_dashes :
    (p : ℕ → Bool) (fuel : ℕ) (s : Text)
    → all p s ≡ true
    → p b'-' ≡ true
    → all p (single_dashes fuel s) ≡ true
unfolding single_dashes
all-single_dashes p zero s h d = h
all-single_dashes p (suc fuel) s h d =
    if_elim (λ (t : Text). all p t ≡ true) (contains s (codes "--"))
      (λ _. all-single_dashes p fuel (halve_dashes s) (all-halve_dashes p s h d) d) (λ _. h)

pair_found : (a b : ℕ) (s : Text) → has_prefix (a ∷ b ∷ s) (codes "--") ≡ (a == b'-' && b == b'-')
unfolding has_prefix is_found strip
pair_found a b s = ground arith

lone_absent : (a : ℕ) → contains (a ∷ []) (codes "--") ≡ false
unfolding contains has_prefix is_found strip
lone_absent a = ground arith

none_absent : contains [] (codes "--") ≡ false
unfolding contains has_prefix is_found strip
none_absent = refl

none_found : contains [] (codes "--") ≢ true
none_found h = let e = none_absent in absurd (cc)

lone_found : (a : ℕ) → contains (a ∷ []) (codes "--") ≢ true
lone_found a h = let e = lone_absent a in absurd (cc)

length-halve_dashes : (s : Text) → length (halve_dashes s) ≤ length s
unfolding halve_dashes
length-halve_dashes [] = omega arith
length-halve_dashes (a ∷ []) = omega arith
length-halve_dashes (a ∷ b ∷ s) =
    if_elim (λ (t : Text). length t ≤ length (a ∷ b ∷ s)) (a == b'-' && b == b'-')
      (λ _. omega (arith, length-halve_dashes s)) (λ _. omega (arith, length-halve_dashes (b ∷ s)))

shorter-halve_dashes :
    (s : Text) → contains s (codes "--") ≡ true → length (halve_dashes s) < length s
unfolding halve_dashes contains
shorter-halve_dashes [] h = absurd (none_found h)
shorter-halve_dashes (a ∷ []) h = absurd (lone_found a h)
shorter-halve_dashes (a ∷ b ∷ s) h =
    if_elim (λ (t : Text). length t < length (a ∷ b ∷ s)) (a == b'-' && b == b'-')
      (λ _. omega (arith, length-halve_dashes s))
      (λ other.
        let behind : contains (b ∷ s) (codes "--") ≡ true =
          subst (λ f. (f || contains (b ∷ s) (codes "--")) ≡ true) (pair_found a b s ∙ other) h in
        omega (arith, shorter-halve_dashes (b ∷ s) behind))

-- Enough passes leave no two dashes in a row.
contains-single_dashes :
    (fuel : ℕ) (s : Text) → length s ≤ fuel → contains (single_dashes fuel s) (codes "--") ≡ false
unfolding single_dashes
contains-single_dashes zero [] h = none_absent
contains-single_dashes zero (c ∷ s) h = absurd (omega arith)
contains-single_dashes (suc fuel) s h =
    if_elim (λ (t : Text). contains t (codes "--") ≡ false) (contains s (codes "--"))
      (λ found.
        contains-single_dashes fuel (halve_dashes s) (omega (arith, shorter-halve_dashes s found)))
      (λ absent. absent)

or_proj-slug :
    (s : Text)
    → all is_slug_char s ≡ true
    → contains s (codes "--") ≡ false
    → (all is_slug_char (or_proj s) ≡ true)
      × (contains (or_proj s) (codes "--") ≡ false)
      × (1 ≤ length (or_proj s))
unfolding or_proj contains has_prefix is_found strip
or_proj-slug [] h d = (refl, refl, omega arith)
or_proj-slug (c ∷ s) h d = (h, d, omega arith)

-- Whatever the name, the slug is not empty, has only lower case letters, digits and dashes, and no
-- two dashes in a row: the passes over the dashes end.
pub slugify-slug :
    (name : Text)
    → (all is_slug_char (slugify name) ≡ true)
      × (contains (slugify name) (codes "--") ≡ false)
      × (1 ≤ length (slugify name))
unfolding slugify
slugify-slug name =
    let out : Text = trim (λ c. c == b'-') (slug_chars (to_lower (trim_space name))) in
    let plain : all is_slug_char out ≡ true =
      all-trim is_slug_char (λ c. c == b'-') (slug_chars (to_lower (trim_space name)))
        (all-slug_chars (to_lower (trim_space name))) in
    or_proj-slug (single_dashes (length out) out)
      (all-single_dashes is_slug_char (length out) out plain refl)
      (contains-single_dashes (length out) out (omega arith))
