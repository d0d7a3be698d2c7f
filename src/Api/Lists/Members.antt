-- ===== src/Api/Lists/Members.antt =====
-- The members of a page of rows, and their order.
use meshbridge.Base.{
  ℕ, zero, suc, ◌≤◌, ◌≡◌, refl, subst, sym, Bool, true, List, [], ◌∷◌, ◌⊎◌, inl, inr, any, keep,
  map, take, drop, leb, if_elim, arith, All, Bool-cases,
}
use meshbridge.Api.Lists.{put_row, newest_first}

module _ {A : Type 0} where
  -- A member of a list.
  abbrev pub Among : A → List A → Type 0
  Among x [] = ⊥
  Among x (y ∷ ys) = (x ≡ y) ⊎ Among x ys

  pub any_found :
      (p : A → Bool) (xs : List A) → any p xs ≡ true → (x : A) × Among x xs × (p x ≡ true)
  any_found p [] h = absurd (cc)
  any_found p (x ∷ xs) h = elim (Bool-cases (p x)) [
    | inl yes_x ↦ (x, inl refl, yes_x)
    | inr no_x ↦ let (y, m, py) = any_found p xs (ground arith) in (y, inr m, py)
  ]

  pub any_member : (p : A → Bool) (x : A) (xs : List A) → Among x xs → p x ≡ true → any p xs ≡ true
  any_member p x [] m h = absurd m
  any_member p x (y ∷ ys) (inl e) h =
      let first : p y ≡ true = subst (λ z. p z ≡ true) e h in ground arith
  any_member p x (y ∷ ys) (inr m) h = ground (arith, any_member p x ys m h)

  pub Among-keep :
      (p : A → Bool) (x : A) (xs : List A) → Among x (keep p xs) → Among x xs × (p x ≡ true)
  Among-keep p x [] = λ m. absurd m
  Among-keep p x (y ∷ ys) =
      if_elim (λ l. Among x l → Among x (y ∷ ys) × (p x ≡ true)) (p y)
        (λ passes m. elim m [
          | inl e ↦ (inl e, subst (λ z. p z ≡ true) (sym e) passes)
          | inr n ↦ let (there, h) = Among-keep p x ys n in (inr there, h)
        ])
        (λ _ m. let (there, h) = Among-keep p x ys m in (inr there, h))

  pub keep-Among :
      (p : A → Bool) (x : A) (xs : List A) → Among x xs → p x ≡ true → Among x (keep p xs)
  keep-Among p x [] m h = absurd m
  keep-Among p x (y ∷ ys) (inl e) h =
      let first : p y ≡ true = subst (λ z. p z ≡ true) e h in rw first (inl e)
  keep-Among p x (y ∷ ys) (inr m) h =
      if_elim (Among x) (p y) (λ _. inr (keep-Among p x ys m h)) (λ _. keep-Among p x ys m h)

  pub Among-take : (n : ℕ) (x : A) (xs : List A) → Among x (take n xs) → Among x xs
  Among-take zero x xs m = absurd m
  Among-take (suc n) x [] m = absurd m
  Among-take (suc n) x (y ∷ ys) (inl e) = inl e
  Among-take (suc n) x (y ∷ ys) (inr m) = inr (Among-take n x ys m)

  pub Among-drop : (n : ℕ) (x : A) (xs : List A) → Among x (drop n xs) → Among x xs
  Among-drop zero x xs m = m
  Among-drop (suc n) x [] m = absurd m
  Among-drop (suc n) x (y ∷ ys) m = inr (Among-drop n x ys m)

  Among-put_row :
      (at : A → ℕ) (x y : A) (ys : List A) → Among x (put_row at y ys) → Among x (y ∷ ys)
  unfolding put_row
  Among-put_row at x y [] = λ m. m
  Among-put_row at x y (z ∷ zs) =
      if_elim (λ l. Among x l → Among x (y ∷ z ∷ zs)) (leb (at z) (at y)) (λ _ m. m)
        (λ _ m. elim m [
          | inl e ↦ inr (inl e)
          | inr n ↦ elim (Among-put_row at x y zs n) [ inl e ↦ inl e | inr k ↦ inr (inr k) ]
        ])

  put_row-Among :
      (at : A → ℕ) (x y : A) (ys : List A) → Among x (y ∷ ys) → Among x (put_row at y ys)
  unfolding put_row
  put_row-Among at x y [] m = m
  put_row-Among at x y (z ∷ zs) m =
      if_elim (Among x) (leb (at z) (at y)) (λ _. m)
        (λ _. elim m [
          | inl e ↦ inr (put_row-Among at x y zs (inl e))
          | inr n ↦ elim n [ inl e ↦ inl e | inr k ↦ inr (put_row-Among at x y zs (inr k)) ]
        ])

  pub Among-newest_first :
      (at : A → ℕ) (x : A) (xs : List A) → Among x (newest_first at xs) → Among x xs
  unfolding newest_first
  Among-newest_first at x [] m = m
  Among-newest_first at x (y ∷ ys) m = elim (Among-put_row at x y (newest_first at ys) m) [
    | inl e ↦ inl e
    | inr n ↦ inr (Among-newest_first at x ys n)
  ]

  pub newest_first-Among :
      (at : A → ℕ) (x : A) (xs : List A) → Among x xs → Among x (newest_first at xs)
  unfolding newest_first
  newest_first-Among at x [] m = m
  newest_first-Among at x (y ∷ ys) (inl e) = put_row-Among at x y (newest_first at ys) (inl e)
  newest_first-Among at x (y ∷ ys) (inr m) =
      put_row-Among at x y (newest_first at ys) (inr (newest_first-Among at x ys m))

  -- Later rows first.
  abbrev pub Descending : (A → ℕ) → List A → Type 0
  Descending at [] = Unit
  Descending at (x ∷ xs) = All (λ y. at y ≤ at x) xs × Descending at xs

  All-lower :
      (at : A → ℕ) (m n : ℕ) (xs : List A) → m ≤ n → All (λ y. at y ≤ m) xs → All (λ y. at y ≤ n) xs
  All-lower at m n [] low h = tt
  All-lower at m n (x ∷ xs) low (first, h) = (omega arith, All-lower at m n xs low h)

  All-put_row :
      (at : A → ℕ) (n : ℕ) (x : A) (xs : List A)
      → at x ≤ n
      → All (λ y. at y ≤ n) xs
      → All (λ y. at y ≤ n) (put_row at x xs)
  unfolding put_row
  All-put_row at n x [] low h = (low, tt)
  All-put_row at n x (y ∷ ys) low (first, h) =
      if_elim (All (λ z. at z ≤ n)) (leb (at y) (at x)) (λ _. (low, (first, h)))
        (λ _. (first, All-put_row at n x ys low h))

  put_row-Descending :
      (at : A → ℕ) (x : A) (xs : List A) → Descending at xs → Descending at (put_row at x xs)
  unfolding put_row
  put_row-Descending at x [] d = (tt, tt)
  put_row-Descending at x (y ∷ ys) (below, d) =
      if_elim (Descending at) (leb (at y) (at x))
        (λ low.
          let older : at y ≤ at x = ground arith in
          ((older, All-lower at (at y) (at x) ys older below), (below, d)))
        (λ high. (All-put_row at (at y) x ys (ground arith) below, put_row-Descending at x ys d))

  pub newest_first-Descending : (at : A → ℕ) (xs : List A) → Descending at (newest_first at xs)
  unfolding newest_first
  newest_first-Descending at [] = tt
  newest_first-Descending at (x ∷ xs) =
      put_row-Descending at x (newest_first at xs) (newest_first-Descending at xs)

  pub drop-Descending :
      (at : A → ℕ) (n : ℕ) (xs : List A) → Descending at xs → Descending at (drop n xs)
  drop-Descending at zero xs d = d
  drop-Descending at (suc n) [] d = d
  drop-Descending at (suc n) (x ∷ xs) d = drop-Descending at n xs d.1

  All-take : (P : A → Type 0) (n : ℕ) (xs : List A) → All P xs → All P (take n xs)
  All-take P zero xs h = tt
  All-take P (suc n) [] h = tt
  All-take P (suc n) (x ∷ xs) (first, h) = (first, All-take P n xs h)

  pub take-Descending :
      (at : A → ℕ) (n : ℕ) (xs : List A) → Descending at xs → Descending at (take n xs)
  take-Descending at zero xs d = tt
  take-Descending at (suc n) [] d = tt
  take-Descending at (suc n) (x ∷ xs) (below, d) =
      (All-take (λ y. at y ≤ at x) n xs below, take-Descending at n xs d)

module _ {A B : Type 0} where
  pub Among-map :
      (f : A → B) (y : B) (xs : List A) → Among y (map f xs) → (x : A) × Among x xs × (y ≡ f x)
  Among-map f y [] m = absurd m
  Among-map f y (x ∷ xs) (inl e) = (x, inl refl, e)
  Among-map f y (x ∷ xs) (inr m) = let (z, n, e) = Among-map f y xs m in (z, inr n, e)
