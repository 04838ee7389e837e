-- ===== src/Transfer/Reassembly.antt =====
-- A file that arrives in chunks, in any order and with repetitions.
use go_send.Base.{
  ℕ, ◌+◌, ◌-◌, ◌*◌, ◌/◌, ◌≤◌, ◌<◌, ◌≡◌, true, List, ◌∷◌, ltb, ltb→lt, Bytes, has, length, take,
  drop, get_elem?, get_elem?-take, get_elem?-drop, get_elem?-beyond, get_elem?_ext, Bool-cases, inl,
  inr, arith,
}
use go_send.Transfer.Chunks.{
  chunk_count, write_at, get_elem?-write_at, length-write_at, div_iff, chunk_count_covers,
  length-chunk,
}

-- The temporary file agrees with the file wherever a chunk was received.
pub record IsPartOf (file : Bytes) (chunk_size : ℕ) (received : List ℕ) (content : Bytes)
    : Type 0 where
  pub same_length : length content ≡ length file
  pub same : (j : ℕ) → has (j / chunk_size) received ≡ true → get_elem? content j ≡ get_elem? file j

-- Writing a chunk of the file at its place.
pub write_at-IsPartOf :
    (file : Bytes) (chunk_size index : ℕ) (received : List ℕ) (content : Bytes)
    → 0 < chunk_size
    → index * chunk_size < length file
    → IsPartOf file chunk_size received content
    → IsPartOf file chunk_size
        (index ∷ received)
        (write_at content (take chunk_size (drop (index * chunk_size) file)) (index * chunk_size))
write_at-IsPartOf file c index received content pos_c within h =
    let chunk = take c (drop (index * c) file) in
    let size = length-chunk file (index * c) c in
    let room : index * c + length chunk ≤ length content = ground (arith, size, h.same_length) in
    record {
      same_length = ground (arith, length-write_at content chunk (index * c) room, h.same_length);
      same = λ j e. ground (
        arith,
        e,
        h.same j,
        size,
        h.same_length,
        get_elem?-write_at content chunk (index * c) j room,
        get_elem?-take c (drop (index * c) file) (j - index * c),
        get_elem?-drop (index * c) file (j - index * c),
        get_elem?-beyond file j,
        get_elem?-beyond content j,
        div_iff j c index pos_c,
      );
    }

-- With every chunk received, the content is the file.
pub whole :
    (file : Bytes) (chunk_size : ℕ) (received : List ℕ) (content : Bytes)
    → 0 < chunk_size
    → IsPartOf file chunk_size received content
    → ((k : ℕ) → k < chunk_count (length file) chunk_size → has k received ≡ true)
    → content ≡ file
whole file c received content pos_c h all = get_elem?_ext content file (λ j.
    elim (Bool-cases (ltb j (length file))) [
      | inl e ↦
          h.same j
            (all (j / c) (chunk_count_covers (length file) c j pos_c (ltb→lt j (length file) e)))
      | inr e ↦
          ground (arith, e, h.same_length, get_elem?-beyond file j, get_elem?-beyond content j)
    ])
