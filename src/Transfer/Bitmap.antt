-- ===== src/Transfer/Bitmap.antt =====
-- The bitmap of completed chunks: OpenBitmap, MarkDone, IsDone, Remaining and Complete. `disk` is what
-- the state file decodes to, `none` where it is missing or broken; the file is written whole, by
-- rename.
use meshbridge.Base.{
  ℕ, zero, suc, ◌+◌, ◌≡◌, refl, sym, ap, ◌∙◌, Bool, true, false, not, Option, none, some, List, [],
  ◌∷◌, ◌==◌, if◌then◌else◌, if_elim, subst, ◌++◌, length, length-append, set, replicate, arith,
}
use mathlib.Core.List.{append_assoc, append-nil}

abbrev pub Bitmap : Type 0
Bitmap = List Bool

unfoldable pub restored : ℕ → Option Bitmap → Bitmap
restored n none = replicate n false
restored n (some disk) = if length disk == n then disk else replicate n false

unfoldable pub open_bitmap : Option Bitmap → ℕ → Bitmap
unfolding restored
open_bitmap disk n = restored n disk

-- The write beyond the end of the source's slice panics; here it changes nothing.
unfoldable pub mark_done : Bitmap → ℕ → Bitmap
mark_done done i = set done i true

unfoldable pub remaining_from : ℕ → Bitmap → List ℕ
remaining_from i [] = []
remaining_from i (d ∷ done) =
    let rest = remaining_from (i + 1) done in if not d then i ∷ rest else rest

unfoldable pub remaining : Bitmap → List ℕ
unfolding remaining_from
remaining = remaining_from 0

unfoldable pub complete : Bitmap → Bool
complete [] = true
complete (d ∷ done) = if not d then false else complete done

-- Marks in some order.
unfoldable pub mark_all : Bitmap → List ℕ → Bitmap
unfolding mark_done
mark_all done [] = done
mark_all done (i ∷ chunks) = mark_all (mark_done done i) chunks

set-append :
    (pre done : Bitmap) (d : Bool) → set (pre ++ d ∷ done) (length pre) true ≡ pre ++ true ∷ done
set-append [] done d = refl
set-append (b ∷ pre) done d = ap (λ t. b ∷ t) (set-append pre done d)

complete-snoc : (pre : Bitmap) → complete pre ≡ true → complete (pre ++ true ∷ []) ≡ true
unfolding complete
complete-snoc [] h = refl
complete-snoc (d ∷ pre) h = ground (arith, complete-snoc pre)

length-snoc : (pre : Bitmap) → length (pre ++ true ∷ []) ≡ length pre + 1
length-snoc pre = length-append pre (true ∷ [])

shifted :
    (done pre : Bitmap)
    → complete
        (mark_all ((pre ++ true ∷ []) ++ done) (remaining_from (length (pre ++ true ∷ [])) done))
      ≡ true
    → complete (mark_all (pre ++ true ∷ done) (remaining_from (length pre + 1) done)) ≡ true
shifted done pre h =
    subst (λ k. complete (mark_all (pre ++ true ∷ done) (remaining_from k done)) ≡ true)
      (length-snoc pre)
      (subst (λ t. complete (mark_all t (remaining_from (length (pre ++ true ∷ [])) done)) ≡ true)
        (append_assoc pre (true ∷ []) done) h)

mark_rest :
    (done pre : Bitmap)
    → complete pre ≡ true
    → complete (mark_all (pre ++ done) (remaining_from (length pre) done)) ≡ true
unfolding mark_all mark_done remaining_from
mark_rest [] pre h = subst (λ t. complete t ≡ true) (sym (append-nil pre)) h
mark_rest (true ∷ done) pre h =
    shifted done pre (mark_rest done (pre ++ true ∷ []) (complete-snoc pre h))
mark_rest (false ∷ done) pre h =
    subst (λ t. complete (mark_all t (remaining_from (length pre + 1) done)) ≡ true)
      (sym (set-append pre done false))
      (shifted done pre (mark_rest done (pre ++ true ∷ []) (complete-snoc pre h)))

length-set : (done : Bitmap) (i : ℕ) → length (set done i true) ≡ length done
length-set [] i = refl
length-set (d ∷ done) zero = refl
length-set (d ∷ done) (suc i) = ap (λ k. suc k) (length-set done i)

length-mark_all : (done : Bitmap) (chunks : List ℕ) → length (mark_all done chunks) ≡ length done
unfolding mark_all mark_done
length-mark_all done [] = refl
length-mark_all done (i ∷ chunks) = length-mark_all (set done i true) chunks ∙ length-set done i

length-replicate : (n : ℕ) → length (replicate n false) ≡ n
length-replicate zero = refl
length-replicate (suc n) = ap (λ k. suc k) (length-replicate n)

length-open_bitmap : (disk : Option Bitmap) (n : ℕ) → length (open_bitmap disk n) ≡ n
unfolding open_bitmap restored
length-open_bitmap none n = length-replicate n
length-open_bitmap (some disk) n =
    if_elim (λ (t : Bitmap). length t ≡ n) (length disk == n) (λ same. ground arith)
      (λ _. length-replicate n)

-- Whatever the state file holds, the opened bitmap has a bit for each chunk, and once the chunks that
-- it reports as remaining are marked, in the order reported, the transfer is complete.
complete-mark_all :
    (disk : Option Bitmap) (n : ℕ)
    → (length (open_bitmap disk n) ≡ n)
      × (complete (mark_all (open_bitmap disk n) (remaining (open_bitmap disk n))) ≡ true)
      × (length (mark_all (open_bitmap disk n) (remaining (open_bitmap disk n))) ≡ n)
unfolding remaining complete
complete-mark_all disk n = (
  length-open_bitmap disk n,
  mark_rest (open_bitmap disk n) [] refl,
  length-mark_all (open_bitmap disk n) (remaining_from 0 (open_bitmap disk n))
      ∙ length-open_bitmap disk n,
)
