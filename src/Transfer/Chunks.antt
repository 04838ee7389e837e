-- ===== src/Transfer/Chunks.antt =====
-- network/file_transfer.go: chunkCount, readFileChunk and the write of a chunk into the temporary
-- file. Sizes and offsets are those of accepted files, below 2^63.
use go_send.Base.{
  ◌∷◌, [], ℕ, zero, suc, ◌+◌, ◌-◌, ◌*◌, ◌/◌, ◌%◌, ◌≤◌, ◌<◌, ◌≡◌, ◌↔◌, refl, ◌||◌, ◌++◌, Option,
  none, some, Bytes, if◌then◌else◌, is_empty, ltb, ◌==◌, length, take, drop, replicate, get_elem?,
  get_elem?-append, get_elem?-take, get_elem?-drop, length-take, length-drop, length-append, arith,
}
use native.Mathlib.Nat.{
  div-add-mod', mod-lt, mul-le-mul_right, div-lt_iff_lt-mul, le-div_iff_mul-le, suc-mul,
  mul-lt-mul_of_pos_right,
}

-- chunkCount.
unfoldable pub chunk_count : ℕ → ℕ → ℕ
chunk_count size chunk_size =
    if size == 0 || chunk_size == 0
    then 0
    else (let chunks = size / chunk_size in if size % chunk_size == 0 then chunks else chunks + 1)

-- readFileChunk: none is io.EOF.
unfoldable pub read_file_chunk : Bytes → ℕ → ℕ → Option Bytes
read_file_chunk file offset chunk_size =
    let chunk = take chunk_size (drop offset file) in if is_empty chunk then none else some chunk

-- file.WriteAt: a gap before the offset is filled with zeros; no bytes change nothing.
unfoldable pub write_at : Bytes → Bytes → ℕ → Bytes
write_at content b offset =
    if is_empty b
    then content
    else take offset (content ++ replicate (offset - length content) 0)
      ++ (b ++ drop (offset + length b) content)

pub length-replicate : (n : ℕ) (x : ℕ) → length (replicate n x) ≡ n
length-replicate zero x = omega arith
length-replicate (suc n) x = omega (arith, length-replicate n x)

-- A write within the file changes the bytes it covers and no other, and keeps the length.
pub get_elem?-write_at :
    (content b : Bytes) (offset j : ℕ)
    → offset + length b ≤ length content
    → get_elem? (write_at content b offset) j ≡ (
        if ltb j offset
        then get_elem? content j
        else if ltb j (offset + length b)
        then get_elem? b (j - offset)
        else get_elem? content j)
unfolding write_at
get_elem?-write_at content [] offset j h = ground arith
get_elem?-write_at content (x ∷ xs) offset j h =
    let b : Bytes = x ∷ xs in
    let pad : Bytes = replicate (offset - length content) 0 in
    let tail = drop (offset + length b) content in
    ground (
      arith,
      get_elem?-append (take offset (content ++ pad)) (b ++ tail) j,
      get_elem?-append b tail (j - offset),
      get_elem?-take offset (content ++ pad) j,
      get_elem?-append content pad j,
      get_elem?-drop (offset + length b) content (j - offset - length b),
      length-take offset (content ++ pad),
      length-append content pad,
    )

pub length-write_at :
    (content b : Bytes) (offset : ℕ)
    → offset + length b ≤ length content
    → length (write_at content b offset) ≡ length content
unfolding write_at
length-write_at content [] offset h = refl
length-write_at content (x ∷ xs) offset h =
    let b : Bytes = x ∷ xs in
    let pad : Bytes = replicate (offset - length content) 0 in
    let tail = drop (offset + length b) content in
    ground (
      arith,
      length-append (take offset (content ++ pad)) (b ++ tail),
      length-append b tail,
      length-take offset (content ++ pad),
      length-append content pad,
      length-drop (offset + length b) content,
    )

-- The chunk that a position lies in.
pub div_iff : (j c i : ℕ) → 0 < c → (j / c ≡ i) ↔ ((i * c ≤ j) × (j < i * c + c))
div_iff j c i h = ground (
  arith,
  suc-mul i c,
  le-div_iff_mul-le {k = c} {x = i} {y = j} h,
  le-div_iff_mul-le {k = c} {x = suc i} {y = j} h,
)

pub chunk_count_covers :
    (size chunk_size j : ℕ)
    → 0 < chunk_size
    → j < size
    → j / chunk_size < chunk_count size chunk_size
unfolding chunk_count
chunk_count_covers size c j h k = ground (
  arith,
  suc-mul (size / c) c,
  div-add-mod' size c,
  mod-lt size h,
  div-lt_iff_lt-mul {k = c} {x = j} {y = size / c} h,
  div-lt_iff_lt-mul {k = c} {x = j} {y = suc (size / c)} h,
)

-- Every chunk that is counted has a byte of the file.
pub chunk_count_within :
    (size chunk_size i : ℕ)
    → 0 < chunk_size
    → i < chunk_count size chunk_size
    → i * chunk_size < size
unfolding chunk_count
chunk_count_within size c i h k =
    let spread : i < size / c → i * c < size / c * c = λ less. mul-lt-mul_of_pos_right less h in
    let least : i ≤ size / c → i * c ≤ size / c * c = mul-le-mul_right c in
    ground (arith, div-add-mod' size c, spread, least)

pub length-chunk :
    (file : Bytes) (offset c : ℕ)
    → length (take c (drop offset file))
      ≡ (if ltb c (length file - offset) then c else length file - offset)
length-chunk file offset c = rw (length-take c (drop offset file), length-drop offset file) refl
