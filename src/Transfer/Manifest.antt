-- ===== src/Transfer/Manifest.antt =====
-- ChunkCountFor and BuildManifest. What the file yields is the list of its reads, each as many bytes
-- as Read reported; `failed` tells that the last Read ended in an error other than EOF.
use meshbridge.Base.{
  ℕ, zero, suc, ◌+◌, ◌-◌, ◌/◌, Bool, ◌||◌, not, Option, none, some, List, [], ◌∷◌, ◌++◌, ◌==◌, ltb,
  if◌then◌else◌, length, take, drop,
}
use meshbridge.Base.Text.{Text}

abbrev pub min_chunk : ℕ
min_chunk = 8388608

abbrev pub max_chunk : ℕ
max_chunk = 268435456

unfoldable pub chunk_count_for : ℕ → ℕ → ℕ
chunk_count_for size chunk_size = if size == 0 then 0 else (size + chunk_size - 1) / chunk_size

pub data ManifestError : Type 0 where
  chunk_size_range read_failed count_mismatch : ManifestError

module _ {ℓ} {H : Type ℓ} (hash : Text → H) where
  pub record Manifest : Type ℓ where
    pub size : ℕ
    pub chunk_size : ℕ
    pub chunk_count : ℕ
    pub chunks : List H
    pub final : H

  -- `cur` holds what was written to the hasher of the chunk, `none` where there is none.
  pub record Building : Type ℓ where
    pub chunks : List H
    pub cur : Option Text

  unfoldable pub written : Option Text → Text
  written none = []
  written (some q) = q

  unfoldable pub flush : Building → Text → Building
  flush b q = record { chunks = b.chunks ++ hash q ∷ []; cur = none }

  unfoldable pub least : ℕ → ℕ → ℕ
  least a b = if ltb b a then b else a

  -- One turn of the inner loop: the bytes up to the end of the chunk or of the buffer.
  unfoldable pub fill : ℕ → Building → Text → Building
  unfolding written flush least
  fill chunk_size b buf =
      let curs = written b.cur in
      let more = curs ++ take (least (length buf) (chunk_size - length curs)) buf in
      if length more == chunk_size then flush b more else record b { cur = some more }

  unfoldable pub rest_of : ℕ → Building → Text → Text
  unfolding written least
  rest_of chunk_size b buf = drop (least (length buf) (chunk_size - length (written b.cur))) buf

  -- `for off < n`.
  unfoldable pub fill_all : ℕ → ℕ → Building → Text → Building
  unfolding fill rest_of
  fill_all zero chunk_size b buf = b
  fill_all (suc fuel) chunk_size b [] = b
  fill_all (suc fuel) chunk_size b (c ∷ buf) =
      fill_all fuel chunk_size (fill chunk_size b (c ∷ buf)) (rest_of chunk_size b (c ∷ buf))

  -- The loop over the reads; a turn of the inner loop takes at least one byte.
  unfoldable pub read_all : ℕ → Building → List Text → Building
  unfolding fill_all
  read_all chunk_size b [] = b
  read_all chunk_size b (buf ∷ reads) =
      read_all chunk_size (fill_all (length buf) chunk_size b buf) reads

  unfoldable pub finished : Building → Option Text → List H
  unfolding flush
  finished b none = b.chunks
  finished b (some q) = (flush b q).chunks

  unfoldable pub joined : List Text → Text
  joined [] = []
  joined (buf ∷ reads) = buf ++ joined reads

  pub data Built : Type ℓ where
    refused : ManifestError → Built
    built : Manifest → Built

  -- `size` is what Stat reports.
  unfoldable pub build_manifest : ℕ → ℕ → List Text → Bool → Built
  unfolding chunk_count_for read_all finished joined
  build_manifest size chunk_size reads failed =
      if ltb chunk_size min_chunk || ltb max_chunk chunk_size
      then refused chunk_size_range
      else if failed
      then refused read_failed
      else (let b = read_all chunk_size (record { chunks = []; cur = none }) reads in
          let chunks = finished b b.cur in
          let count = chunk_count_for size chunk_size in
          if not (length chunks == count)
          then refused count_mismatch
          else built (record {
            size = size;
            chunk_size = chunk_size;
            chunk_count = count;
            chunks = chunks;
            final = hash (joined reads);
          }))
