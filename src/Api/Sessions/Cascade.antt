-- ===== src/Api/Sessions/Cascade.antt =====
-- internal/api/project_sso.go: what the cascades leave behind.
use meshbridge.Base.{
  ℕ, zero, suc, ◌≤◌, ◌≡◌, refl, ap, Bool, true, Option, none, some, List, [], ◌∷◌, keep, length,
  arith, length-keep-le, inl, inr, Bool-cases, subst, sym, all, leb, ◌∙◌, Option-cases,
}
use meshbridge.Base.Dict.{Dict, lookup}
use meshbridge.Base.Text.{Text, eq_text, text_eq, text_eq_iff}
use meshbridge.Api.{ApiToken, SsoGrant}
use meshbridge.Api.Sessions.{Sessions, has, anchored, sweep, rows, sweeps, cascade}

abbrev pub parented : Sessions → Text × SsoGrant → Bool
parented t e = has e.1.parent_hash t.tokens

abbrev pub held : Sessions → Text × ApiToken → Bool
held t e = anchored t.grants e.1.grant_hash

-- Each grant has its parent token, and each derived token has its grant.
abbrev pub Integral : Sessions → Type 0
Integral t = (all (parented t) t.grants ≡ true) × (all (held t) t.tokens ≡ true)

module _ {A : Type 0} where
  keep_same :
      (p : A → Bool) (xs : List A)
      → length xs ≤ length (keep p xs)
      → (all p xs ≡ true) × (keep p xs ≡ xs)
  keep_same p [] h = (refl, refl)
  keep_same p (x ∷ xs) h = ground (arith, keep_same p xs, length-keep-le p xs)

module _ {V : Type 0} where
  pub all_of_lookup :
      (p : Text × V → Bool) (k : Text) (v : V) (m : Dict Text V)
      → all p m ≡ true
      → lookup k m ≡ some v
      → p (k, v) ≡ true
  unfolding lookup
  all_of_lookup p k v [] every here = absurd (cc)
  all_of_lookup p k v ((j, w) ∷ m) every here = elim (Bool-cases (text_eq j k)) [
    | inl same ↦
        let key : j ≡ k = (text_eq_iff j k).0 same in
        let value : w ≡ v = ground arith in
        let first : p (j, w) ≡ true = ground arith in rw (sym key, sym value) first
    | inr other ↦ ground (arith, all_of_lookup p k v m)
  ]

  pub absent-keep :
      (p : Text × V → Bool) (k : Text) (m : Dict Text V)
      → lookup k m ≡ none
      → lookup k (keep p m) ≡ none
  unfolding lookup
  absent-keep p k [] none_there = refl
  absent-keep p k ((j, w) ∷ m) none_there = ground (arith, absent-keep p k m)

sweep_same : (t : Sessions) → rows t ≤ rows (sweep t) → Integral t × (sweep t ≡ t)
unfolding sweep
sweep_same t h =
    let grants = keep (parented t) t.grants in
    let holder = λ (g : Dict Text SsoGrant) (e : Text × ApiToken). anchored g e.1.grant_hash in
    let few_grants = length-keep-le (parented t) t.grants in
    let few_tokens = length-keep-le (holder grants) t.tokens in
    let (parents, same_grants) = keep_same (parented t) t.grants (omega arith) in
    let (holds, same_tokens) = keep_same (holder grants) t.tokens (omega arith) in
    (
      (parents, subst (λ g. all (holder g) t.tokens ≡ true) same_grants holds),
      λ i. record { tokens = same_tokens i; grants = same_grants i },
    )

sweeps_fixed : (fuel : ℕ) (t : Sessions) → sweep t ≡ t → sweeps fuel t ≡ t
unfolding sweeps
sweeps_fixed zero t same = refl
sweeps_fixed (suc fuel) t same = ap (sweeps fuel) same ∙ sweeps_fixed fuel t same

all_of_no : {A : Type 0} (p : A → Bool) (xs : List A) → length xs ≤ 0 → all p xs ≡ true
all_of_no p [] h = refl
all_of_no p (x ∷ xs) h = absurd (omega arith)

no_rows : (t : Sessions) → rows t ≤ 0 → Integral t
no_rows t h =
    (all_of_no (parented t) t.grants (omega arith), all_of_no (held t) t.tokens (omega arith))

sweeps-Integral : (fuel : ℕ) (t : Sessions) → rows t ≤ fuel → Integral (sweeps fuel t)
unfolding sweeps
sweeps-Integral zero t enough = no_rows t enough
sweeps-Integral (suc fuel) t enough = elim (Bool-cases (leb (rows t) (rows (sweep t)))) [
  | inl still ↦
      let (whole, same) = sweep_same t (ground arith) in
      subst Integral (sym (ap (sweeps fuel) same ∙ sweeps_fixed fuel t same)) whole
  | inr fewer ↦ sweeps-Integral fuel (sweep t) (ground arith)
]

sweeps_absent :
    (fuel : ℕ) (t : Sessions) (hash : Text)
    → lookup hash t.tokens ≡ none
    → lookup hash (sweeps fuel t).tokens ≡ none
unfolding sweeps sweep
sweeps_absent zero t hash gone = gone
sweeps_absent (suc fuel) t hash gone = sweeps_absent fuel (sweep t) hash (
    absent-keep (λ (e : Text × ApiToken). anchored (keep (parented t) t.grants) e.1.grant_hash) hash
      t.tokens gone)

-- As many rounds as there are rows delete every row that refers to a missing one.
pub cascade-Integral : (t : Sessions) → Integral (cascade t)
unfolding cascade
cascade-Integral t = sweeps-Integral (rows t) t (omega arith)

pub cascade_absent :
    (t : Sessions) (hash : Text)
    → lookup hash t.tokens ≡ none
    → lookup hash (cascade t).tokens ≡ none
unfolding cascade
cascade_absent t hash = sweeps_absent (rows t) t hash

has_row :
    {V : Type 0} (key : Text) (table : Dict Text V)
    → has key table ≡ true
    → (v : V) × (lookup key table ≡ some v)
unfolding has
has_row key table h = elim (Option-cases (lookup key table)) [
  | inl missing ↦ absurd (ground arith)
  | inr found ↦ found
]

-- What a session stands on: nothing, or a grant whose parent token is there.
abbrev pub Founded : Sessions → Option Text → Type 0
Founded t none = Unit
Founded t (some g) =
    (gr : SsoGrant) × (p : ApiToken) × (lookup g t.grants ≡ some gr)
    × (lookup gr.parent_hash t.tokens ≡ some p)

held-Founded :
    (t : Sessions) (o : Option Text) → Integral t → anchored t.grants o ≡ true → Founded t o
unfolding anchored
held-Founded t none whole h = tt
held-Founded t (some g) whole h =
    let (gr, here) = has_row g t.grants h in
    let (p, there) =
      has_row gr.parent_hash t.tokens (all_of_lookup (parented t) g gr t.grants whole.0 here) in
    (gr, p, here, there)

pub Integral-Founded :
    (t : Sessions) (k : Text) (v : ApiToken)
    → Integral t
    → lookup k t.tokens ≡ some v
    → Founded t v.grant_hash
Integral-Founded t k v whole here =
    held-Founded t v.grant_hash whole (all_of_lookup (held t) k v t.tokens whole.1 here)
