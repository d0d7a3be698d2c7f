-- ===== src/Transfer/Chunks.antt =====
-- internal/transfer/transfer.go: the chunks of BuildManifest against the bytes of the file.
use meshbridge.Base.{
  ℕ, zero, suc, ◌+◌, ◌-◌, ◌*◌, ◌≤◌, ◌<◌, ◌≡◌, ◌∙◌, refl, sym, ap, subst, true, false, ◌||◌, not,
  Option, none, some, List, [], ◌∷◌, ◌++◌, map, ◌==◌, ltb, if_elim, length, length-append,
  length-drop, take, drop, take-append-drop, All, All-append, arith,
}
use meshbridge.Base.Text.{Text}
use mathlib.Core.List.{append_assoc, append-nil, map-append}
use native.Mathlib.Nat.{div-eq_of_lt-le}
use meshbridge.Transfer.Manifest.{
  chunk_count_for, min_chunk, max_chunk, Manifest, Building, Built, built, written, flush, least,
  fill, rest_of, fill_all, read_all, finished, joined, build_manifest,
}

module _ {ℓ} {H : Type ℓ} (hash : Text → H) (n : ℕ) where
  abbrev Pending : Option Text → Type 0
  Pending none = Unit
  Pending (some q) = (1 ≤ length q) × (length q < n)

  -- What is built of the bytes `p`: whole chunks, and less than one that is not empty.
  abbrev Holds : Text → Building hash → Type ℓ
  Holds p b =
      (parts : List Text) × (b.chunks ≡ map hash parts)
      × (joined hash parts ++ written hash b.cur ≡ p)
      × All (λ q. length q ≡ n) parts
      × Pending b.cur

  joined-append : (s t : List Text) → joined hash (s ++ t) ≡ joined hash s ++ joined hash t
  unfolding joined
  joined-append [] t = refl
  joined-append (q ∷ s) t =
      ap (λ r. q ++ r) (joined-append s t) ∙ sym (append_assoc q (joined hash s) (joined hash t))

  small-Pending : 1 ≤ n → (cur : Option Text) → Pending cur → length (written hash cur) < n
  unfolding written
  small-Pending h none p = omega arith
  small-Pending h (some q) (a, b) = b

  length-take-least : (buf : Text) (k : ℕ) → k ≤ length buf → length (take k buf) ≡ k
  length-take-least buf zero h = refl
  length-take-least [] (suc k) h = absurd (omega arith)
  length-take-least (c ∷ buf) (suc k) h = omega (arith, length-take-least buf k (omega arith))

  least_bounds :
      (a b : ℕ) → 1 ≤ a → 1 ≤ b → (1 ≤ least hash a b) × (least hash a b ≤ a) × (least hash a b ≤ b)
  unfolding least
  least_bounds a b h k = (ground arith, ground arith, ground arith)

  fill-Holds :
      (p buf : Text) (b : Building hash)
      → 1 ≤ n
      → 1 ≤ length buf
      → Holds p b
      → Holds
          (p ++ take (least hash (length buf) (n - length (written hash b.cur))) buf)
          (fill hash n b buf)
  unfolding fill flush written joined
  fill-Holds p buf b h some_byte (parts, made, whole, sizes, pending) =
      let curs : Text = written hash b.cur in
      let k : ℕ = least hash (length buf) (n - length curs) in
      let small = small-Pending h b.cur pending in
      let (low, high, room) = least_bounds (length buf) (n - length curs) some_byte (omega arith) in
      let more : Text = curs ++ take k buf in
      let size : length more ≡ length curs + k =
        length-append curs (take k buf)
        ∙ ap (λ m. length curs + m) (length-take-least buf k high) in
      let now : joined hash parts ++ more ≡ p ++ take k buf =
        sym (append_assoc (joined hash parts) curs (take k buf))
        ∙ ap (λ t. t ++ take k buf) whole in
      if_elim (λ (c : Building hash). Holds (p ++ take k buf) c) (length more == n)
        (λ full. (
          parts ++ more ∷ [],
          ap (λ cs. cs ++ hash more ∷ []) made ∙ sym (map-append hash parts (more ∷ [])),
          ap (λ t. t ++ []) (joined-append parts (more ∷ []))
              ∙ append-nil (joined hash parts ++ joined hash (more ∷ []))
              ∙ ap (λ t. joined hash parts ++ t) (append-nil more)
              ∙ now,
          All-append (λ q. length q ≡ n) parts (more ∷ []) sizes (ground arith, tt),
          tt,
        ))
        (λ partial. (parts, made, now, sizes, (omega arith, ground arith)))

  fill_all-Holds :
      (fuel : ℕ) (p buf : Text) (b : Building hash)
      → 1 ≤ n
      → length buf ≤ fuel
      → Holds p b
      → Holds (p ++ buf) (fill_all hash fuel n b buf)
  unfolding fill_all rest_of
  fill_all-Holds zero p [] b h enough ok = subst (λ t. Holds t b) (sym (append-nil p)) ok
  fill_all-Holds zero p (c ∷ buf) b h enough ok = absurd (omega arith)
  fill_all-Holds (suc fuel) p [] b h enough ok = subst (λ t. Holds t b) (sym (append-nil p)) ok
  fill_all-Holds (suc fuel) p (c ∷ buf) b h enough ok =
      let some_byte : 1 ≤ length (c ∷ buf) = omega arith in
      let small = small-Pending h b.cur (ok.4) in
      let k : ℕ = least hash (length (c ∷ buf)) (n - length (written hash b.cur)) in
      let (low, high, room) =
        least_bounds (length (c ∷ buf)) (n - length (written hash b.cur)) some_byte (omega arith) in
      let less : length (drop k (c ∷ buf)) ≤ fuel = omega (arith, length-drop k (c ∷ buf)) in
      let whole : (p ++ take k (c ∷ buf)) ++ drop k (c ∷ buf) ≡ p ++ c ∷ buf =
        append_assoc p (take k (c ∷ buf)) (drop k (c ∷ buf))
        ∙ ap (λ t. p ++ t) (take-append-drop k (c ∷ buf)) in
      subst (λ t. Holds t (fill_all hash (suc fuel) n b (c ∷ buf))) whole
        (fill_all-Holds fuel (p ++ take k (c ∷ buf)) (drop k (c ∷ buf)) (fill hash n b (c ∷ buf)) h
          less (fill-Holds p (c ∷ buf) b h some_byte ok))

  read_all-Holds :
      (p : Text) (reads : List Text) (b : Building hash)
      → 1 ≤ n
      → Holds p b
      → Holds (p ++ joined hash reads) (read_all hash n b reads)
  unfolding read_all joined
  read_all-Holds p [] b h ok = subst (λ t. Holds t b) (sym (append-nil p)) ok
  read_all-Holds p (buf ∷ reads) b h ok =
      subst (λ t. Holds t (read_all hash n (fill_all hash (length buf) n b buf) reads))
        (append_assoc p buf (joined hash reads))
        (read_all-Holds (p ++ buf) reads (fill_all hash (length buf) n b buf) h
          (fill_all-Holds (length buf) p buf b h (omega arith) ok))

  abbrev pub tail_of : Text → List H
  tail_of [] = []
  tail_of (c ∷ q) = hash (c ∷ q) ∷ []

  -- The chunks of a file: the hashes of pieces of the chunk's size, and of a shorter last one if
  -- bytes are left; there are as many as ChunkCountFor says.
  abbrev pub Cut : Text → List H → Type ℓ
  Cut p chunks =
      (parts : List Text) × (last : Text) × (chunks ≡ map hash parts ++ tail_of last)
      × (joined hash parts ++ last ≡ p)
      × All (λ q. length q ≡ n) parts
      × (length last < n)
      × (length chunks ≡ chunk_count_for (length p) n)

  length-map : (f : Text → H) (parts : List Text) → length (map f parts) ≡ length parts
  length-map f [] = refl
  length-map f (q ∷ parts) = ap (λ k. suc k) (length-map f parts)

  length-joined :
      (parts : List Text)
      → All (λ q. length q ≡ n) parts
      → length (joined hash parts) ≡ length parts * n
  unfolding joined
  length-joined [] sizes = omega arith
  length-joined (q ∷ parts) (size, sizes) =
      length-append q (joined hash parts) ∙ omega (arith, length-joined parts sizes)

  exact_count : (k : ℕ) → 1 ≤ n → chunk_count_for (k * n) n ≡ k
  unfolding chunk_count_for
  exact_count zero h = if_elim (λ m. m ≡ 0) (0 * n == 0) (λ _. refl) (λ z. absurd (ground arith))
  exact_count (suc k) h =
      if_elim (λ m. m ≡ suc k) (suc k * n == 0) (λ z. absurd (ground arith))
        (λ _. div-eq_of_lt-le n (omega arith) (omega arith))

  more_count : (k r : ℕ) → 1 ≤ r → r < n → chunk_count_for (k * n + r) n ≡ k + 1
  unfolding chunk_count_for
  more_count k r low high =
      if_elim (λ m. m ≡ k + 1) (k * n + r == 0) (λ z. absurd (ground arith))
        (λ _. div-eq_of_lt-le n (omega arith) (omega arith))

  finished-Cut :
      (p : Text) (b : Building hash) (parts : List Text) (cur : Option Text)
      → 1 ≤ n
      → b.chunks ≡ map hash parts
      → joined hash parts ++ written hash cur ≡ p
      → All (λ q. length q ≡ n) parts
      → Pending cur
      → Cut p (finished hash b cur)
  unfolding finished flush written
  finished-Cut p b parts none h made whole sizes pending =
      let count : length p ≡ length parts * n =
        ap length (sym whole)
        ∙ ap length (append-nil (joined hash parts))
        ∙ length-joined parts sizes in
      (
        parts,
        [],
        made ∙ sym (append-nil (map hash parts)),
        whole,
        sizes,
        h,
        ap length made
            ∙ length-map hash parts
            ∙ sym (exact_count (length parts) h)
            ∙ ap (λ m. chunk_count_for m n) (sym count),
      )
  finished-Cut p b parts (some []) h made whole sizes (a, z) = absurd (omega arith)
  finished-Cut p b parts (some (c ∷ q)) h made whole sizes (low, high) =
      let count : length p ≡ length parts * n + length (c ∷ q) =
        ap length (sym whole)
        ∙ length-append (joined hash parts) (c ∷ q)
        ∙ ap (λ m. m + length (c ∷ q)) (length-joined parts sizes) in
      (
        parts,
        c ∷ q,
        ap (λ cs. cs ++ hash (c ∷ q) ∷ []) made,
        whole,
        sizes,
        high,
        length-append b.chunks (hash (c ∷ q) ∷ [])
            ∙ ap (λ cs. length cs + 1) made
            ∙ ap (λ m. m + 1) (length-map hash parts)
            ∙ sym (more_count (length parts) (length (c ∷ q)) low high)
            ∙ ap (λ m. chunk_count_for m n) (sym count),
      )

module _ {ℓ} {H : Type ℓ} (hash : Text → H) where
  -- A file whose reads yield as many bytes as Stat reported, with a chunk size in range, has a
  -- manifest; its chunks are the file cut into pieces of that size, however the reads fell, they are
  -- as many as ChunkCountFor announces, and the final hash is that of the whole file.
  pub build_manifest-Cut :
      (chunk_size : ℕ) (reads : List Text)
      → min_chunk ≤ chunk_size
      → chunk_size ≤ max_chunk
      → (m : Manifest hash) × (build_manifest hash
            (length (joined hash reads))
            chunk_size
            reads
            false
          ≡ built m)
        × Cut hash chunk_size (joined hash reads) m.chunks
        × (length m.chunks ≡ m.chunk_count)
        × (m.final ≡ hash (joined hash reads))
  unfolding build_manifest
  build_manifest-Cut chunk_size reads low high =
      let p : Text = joined hash reads in
      let empty : Building hash = record { chunks = []; cur = none } in
      let b : Building hash = read_all hash chunk_size empty reads in
      let (parts, made, whole, sizes, pending) =
        read_all-Holds hash chunk_size [] reads empty (omega arith) ([], refl, refl, tt, tt) in
      let chunks : List H = finished hash b b.cur in
      let cut : Cut hash chunk_size p chunks =
        finished-Cut hash chunk_size p b parts b.cur (omega arith) made whole sizes pending in
      let count : length chunks ≡ chunk_count_for (length p) chunk_size = cut.6 in
      let in_range : (ltb chunk_size min_chunk || ltb max_chunk chunk_size) ≡ false =
        ground arith in
      let agree : (length chunks == chunk_count_for (length p) chunk_size) ≡ true = ground arith in
      let m : Manifest hash = record {
        size = length p;
        chunk_size = chunk_size;
        chunk_count = chunk_count_for (length p) chunk_size;
        chunks = chunks;
        final = hash p;
      } in
      (
        m,
        if_elim (λ (r : Built hash). r ≡ built m)
            (ltb chunk_size min_chunk || ltb max_chunk chunk_size) (λ out. absurd (cc))
            (λ _.
              if_elim (λ (r : Built hash). r ≡ built m)
                (not (length chunks == chunk_count_for (length p) chunk_size))
                (λ differ. absurd (ground (arith, agree))) (λ _. refl)),
        cut,
        count,
        refl,
      )
