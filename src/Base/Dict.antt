-- ===== src/Base/Dict.antt =====
-- A Go map as an association list: a read takes the first entry of the key, a write keeps one
-- entry for it, and a delete drops all of them.
use Prim.Native.Nat.{ℕ, ◌+◌, ◌≤◌}
use mathlib.Core.Bool.{Bool, true, false}
use mathlib.Core.List.{List, [], ◌∷◌}
use mathlib.Core.Logic.{inl, inr}
use mathlib.Core.Option.{Option, none, some}
use mathlib.Core.Path.{◌≡◌, refl}
use native.Mathlib.Omega.{arith}
use package.meshbridge.Base.Keys.{Eq, ◌=?◌}
use package.meshbridge.Base.Lists.{length, keep, sum_by, any}
use package.meshbridge.Base.Tests.{if◌then◌else◌, Option-cases, Bool-cases}

abbrev pub Dict {ℓ κ} : Type ℓ → Type κ → Type (ℓ ⊔ κ)
Dict K V = List (K × V)

module _ {ℓ κ} {K : Type ℓ} {V : Type κ} where
  -- `for k, v := range m { m[k] = f(v) }`.
  abbrev pub map_values : (V → V) → Dict K V → Dict K V
  map_values f [] = []
  map_values f ((k, v) ∷ m) = (k, f v) ∷ map_values f m

module _ {ℓ κ} {K : Type ℓ} {V : Type κ} ⦃e : Eq K⦄ where
  unfoldable pub lookup : K → Dict K V → Option V
  lookup k [] = none
  lookup k ((j, v) ∷ m) = if j =? k then some v else lookup k m

  unfoldable pub insert : K → V → Dict K V → Dict K V
  insert k v [] = (k, v) ∷ []
  insert k v ((j, w) ∷ m) = if j =? k then (k, v) ∷ m else (j, w) ∷ insert k v m

  unfoldable pub delete : K → Dict K V → Dict K V
  delete k [] = []
  delete k ((j, w) ∷ m) = if j =? k then delete k m else (j, w) ∷ delete k m

  pub lookup-insert :
      (k j : K) (v : V) (m : Dict K V)
      → lookup j (insert k v m) ≡ (if k =? j then some v else lookup j m)
  unfolding lookup insert
  lookup-insert k j v [] = refl
  lookup-insert k j v ((i, w) ∷ m) =
      ground (arith, e.beq_iff k j, e.beq_iff i k, e.beq_iff i j, lookup-insert k j v m)

  pub lookup-delete :
      (k j : K) (m : Dict K V) → lookup j (delete k m) ≡ (if k =? j then none else lookup j m)
  unfolding lookup delete
  lookup-delete k j [] = ground arith
  lookup-delete k j ((i, w) ∷ m) =
      ground (arith, e.beq_iff k j, e.beq_iff i k, e.beq_iff i j, lookup-delete k j m)

  pub lookup-insert_self : (k : K) (v : V) (m : Dict K V) → lookup k (insert k v m) ≡ some v
  lookup-insert_self k v m = ground (arith, lookup-insert k k v m, e.beq_iff k k)

  pub lookup-insert_keeps :
      (k j : K) (v w : V) (m : Dict K V)
      → lookup j m ≡ some w
      → (w' : V) × (lookup j (insert k v m) ≡ some w')
  lookup-insert_keeps k j v w m h = elim (Bool-cases (k =? j)) [
    | inl same ↦ (v, ground (arith, lookup-insert k j v m))
    | inr other ↦ (w, ground (arith, lookup-insert k j v m))
  ]

  pub lookup-delete_self : (k : K) (m : Dict K V) → lookup k (delete k m) ≡ none
  lookup-delete_self k m = ground (arith, lookup-delete k k m, e.beq_iff k k)

  pub length-insert : (k : K) (v : V) (m : Dict K V) → length (insert k v m) ≤ length m + 1
  unfolding insert
  length-insert k v [] = omega arith
  length-insert k v ((j, w) ∷ m) = ground (arith, length-insert k v m)

  pub length-delete : (k : K) (m : Dict K V) → length (delete k m) ≤ length m
  unfolding delete
  length-delete k [] = omega arith
  length-delete k ((j, w) ∷ m) = ground (arith, length-delete k m)

  -- Each key has one entry at most, as in a Go map.
  abbrev pub Distinct : Dict K V → Type (ℓ ⊔ κ)
  Distinct [] = Unit
  Distinct ((k, v) ∷ m) = (lookup k m ≡ none) × Distinct m

  pub insert-Distinct : (k : K) (v : V) (m : Dict K V) → Distinct m → Distinct (insert k v m)
  unfolding insert lookup
  insert-Distinct k v [] d = (refl, tt)
  insert-Distinct k v ((j, w) ∷ m) d =
      ground (arith, e.beq_iff j k, e.beq_iff k j, lookup-insert k j v m, insert-Distinct k v m d.1)

  pub lookup-keep :
      (p : K × V → Bool) (k : K) (m : Dict K V)
      → Distinct m
      → lookup k (keep p m)
        ≡ elim (lookup k m) [ none ↦ none | some v ↦ if p (k, v) then some v else none ]
  unfolding lookup
  lookup-keep p k [] d = refl
  lookup-keep p k ((j, w) ∷ m) d = ground (arith, e.beq_iff j k, lookup-keep p k m d.1)

  pub lookup_of_keep :
      (p : K × V → Bool) (k : K) (v : V) (m : Dict K V)
      → Distinct m
      → lookup k (keep p m) ≡ some v
      → lookup k m ≡ some v
  lookup_of_keep p k v m d h = ground (arith, lookup-keep p k m d)

  pub keep-Distinct : (p : K × V → Bool) (m : Dict K V) → Distinct m → Distinct (keep p m)
  keep-Distinct p [] d = tt
  keep-Distinct p ((j, w) ∷ m) d = ground (arith, lookup-keep p j m d.1, keep-Distinct p m d.1)

  pub lookup-map_values :
      (f : V → V) (k : K) (m : Dict K V)
      → lookup k (map_values f m) ≡ elim (lookup k m) [ none ↦ none | some v ↦ some (f v) ]
  unfolding lookup
  lookup-map_values f k [] = refl
  lookup-map_values f k ((j, w) ∷ m) = ground (arith, lookup-map_values f k m)

  pub lookup_of_map_values :
      (f : V → V) (k : K) (w : V) (m : Dict K V)
      → lookup k (map_values f m) ≡ some w
      → (v : V) × (lookup k m ≡ some v) × (w ≡ f v)
  lookup_of_map_values f k w m h = elim (Option-cases (lookup k m)) [
    | inl absent ↦ ground (arith, lookup-map_values f k m)
    | inr (v, present) ↦ (v, present, ground (arith, lookup-map_values f k m))
  ]

  pub map_values-Distinct : (f : V → V) (m : Dict K V) → Distinct m → Distinct (map_values f m)
  map_values-Distinct f [] d = tt
  map_values-Distinct f ((j, w) ∷ m) d =
      ground (arith, lookup-map_values f j m, map_values-Distinct f m d.1)

  -- The sum of a weight over all entries.
  unfoldable pub total : (K → V → ℕ) → Dict K V → ℕ
  total g = sum_by (λ (p : K × V). g p.0 p.1)

  pub total-insert :
      (g : K → V → ℕ) (k : K) (v : V) (m : Dict K V)
      → total g (insert k v m) + elim (lookup k m) [ none ↦ 0 | some w ↦ g k w ] ≡ total g m + g k v
  unfolding total insert lookup
  total-insert g k v [] = omega arith
  total-insert g k v ((i, w) ∷ m) = ground (arith, e.beq_iff i k, total-insert g k v m)

  pub total-keep :
      (g : K → V → ℕ) (p : K × V → Bool) (m : Dict K V)
      → ((k : K) (v : V) → p (k, v) ≡ false → g k v ≡ 0)
      → total g (keep p m) ≡ total g m
  unfolding total
  total-keep g p [] h = refl
  total-keep g p ((i, w) ∷ m) h = ground (arith, h i w, total-keep g p m h)

  pub total-map_values :
      (g : K → V → ℕ) (f : V → V) (m : Dict K V)
      → ((k : K) (v : V) → g k (f v) ≡ 0)
      → total g (map_values f m) ≡ 0
  unfolding total
  total-map_values g f [] h = refl
  total-map_values g f ((i, w) ∷ m) h = omega (arith, h i w, total-map_values g f m h)

  total_absent :
      (f : V → ℕ) (k : K) (m : Dict K V)
      → lookup k m ≡ none
      → total (λ j v. if j =? k then f v else 0) m ≡ 0
  unfolding total lookup
  total_absent f k [] h = refl
  total_absent f k ((i, w) ∷ m) h = ground (arith, total_absent f k m)

  -- What `f` measures of one key's entry.
  pub total_at :
      (f : V → ℕ) (k : K) (m : Dict K V)
      → Distinct m
      → total (λ j v. if j =? k then f v else 0) m ≡ elim (lookup k m) [ none ↦ 0 | some v ↦ f v ]
  unfolding total lookup
  total_at f k [] d = refl
  total_at f k ((i, w) ∷ m) d =
      ground (arith, e.beq_iff i k, total_absent f k m, total_at f k m d.1)

  pub any_of_lookup :
      (p : K × V → Bool) (k : K) (v : V) (m : Dict K V)
      → lookup k m ≡ some v
      → p (k, v) ≡ true
      → any p m ≡ true
  unfolding lookup
  any_of_lookup p k v [] h t = cc
  any_of_lookup p k v ((i, w) ∷ m) h t = elim (Bool-cases (i =? k)) [
    | inl same ↦
        let key : i ≡ k = (e.beq_iff i k).0 same in
        let value : w ≡ v = ground arith in
        let t' : p (i, w) ≡ true = rw (key, value) t in ground arith
    | inr other ↦ ground (arith, any_of_lookup p k v m (ground arith) t)
  ]

  pub total_zero :
      (g : K → V → ℕ) (m : Dict K V)
      → Distinct m
      → ((k : K) (v : V) → lookup k m ≡ some v → g k v ≡ 0)
      → total g m ≡ 0
  unfolding total lookup
  total_zero g [] d h = refl
  total_zero g ((i, w) ∷ m) d h =
      let first : g i w ≡ 0 = h i w (ground (arith, e.beq_iff i i)) in
      let rest = total_zero g m d.1 (λ k v here. h k v (ground (arith, e.beq_iff i k))) in
      omega arith
