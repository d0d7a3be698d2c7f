-- ===== src/Transfer/Tests.antt =====
-- Small files, bitmaps and nonces.
use meshbridge.Base.{◌≡◌, refl, Bool, true, false, Option, some, List, [], ◌∷◌, length, arith}
use meshbridge.Base.Dict.{lookup, Distinct}
use meshbridge.Base.Text.{Text, codes, text_eq, eq_text}
use meshbridge.Transfer.Manifest.{Manifest, built, build_manifest, joined}
use meshbridge.Transfer.Chunks.{Cut, build_manifest-Cut}
use meshbridge.Transfer.Replay.{
  new_replay_guard, check_and_consume, check_all, collected, gc_due, consume,
  check_and_consume-check_all,
}

abbrev same : Text → Text
same t = t

build_manifest-Cut_example :
    (m : Manifest same) × (build_manifest same 3 8388608 ((1 ∷ []) ∷ (2 ∷ 3 ∷ []) ∷ []) false
      ≡ built m)
    × Cut same 8388608 (1 ∷ 2 ∷ 3 ∷ []) m.chunks
    × (length m.chunks ≡ m.chunk_count)
    × (m.final ≡ 1 ∷ 2 ∷ 3 ∷ [])
unfolding joined
build_manifest-Cut_example =
    build_manifest-Cut same 8388608 ((1 ∷ []) ∷ (2 ∷ 3 ∷ []) ∷ []) (omega arith) (omega arith)

abbrev half : Option (List Bool)
half = some (true ∷ false ∷ [])

fresh-Distinct : Distinct new_replay_guard.seen
unfolding new_replay_guard
fresh-Distinct = tt

first_use : (check_and_consume new_replay_guard (codes "n") 50 100 10).1 ≡ true
unfolding check_and_consume new_replay_guard collected gc_due consume lookup text_eq
first_use = refl

check_and_consume-check_all_example :
    (check_and_consume
      (check_all 100
        (check_and_consume new_replay_guard (codes "n") 50 100 10).0
        ((codes "o", 60, 20) ∷ []))
      (codes "n")
      50
      100
      30).1
    ≡ false
check_and_consume-check_all_example =
    check_and_consume-check_all new_replay_guard (codes "n") 50 50 100 10 30
      ((codes "o", 60, 20) ∷ []) fresh-Distinct first_use (omega arith, tt) (omega arith)
