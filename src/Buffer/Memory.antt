-- ===== src/Buffer/Memory.antt =====
-- One chunk of net/mqtt_buffer.c: `tmq_buffer_chunk_t`, the macros on it and the copies into and
-- out of it. `buf` holds the bytes of the chunk's memory that were written, from its start.
use tiny_mqtt.Prelude.{
  ℕ, ◌+◌, ◌-◌, ◌≤◌, ◌≡◌, refl, ap, sym, ◌∙◌, [], ◌++◌, append_assoc, arith, Str, if◌then◌else◌,
  Bool-cases, inl, inr, ltb, ◌==◌, length, take, drop, length-append, length-take, length-drop,
  take-append_length, drop-append_length, drop-append_le, take-append_ge, take-take, take-drop,
  drop-drop,
}

pub record Chunk : Type 0 where
  pub chunk_size : ℕ
  pub read_idx : ℕ
  pub write_idx : ℕ
  pub buf : Str

abbrev pub buffer_chunk_min : ℕ
buffer_chunk_min = 512

-- `memcpy(buf + at, s, length s)`
unfoldable pub copy_in : ℕ → Str → Str → Str
copy_in at s buf = take at buf ++ s ++ drop (at + length s) buf

-- `memcpy(out, buf + at, n)`
abbrev pub copy_out : ℕ → ℕ → Str → Str
copy_out at n buf = take n (drop at buf)

abbrev pub data_len : Chunk → ℕ
data_len c = c.write_idx - c.read_idx

abbrev pub writeable : Chunk → ℕ
writeable c = c.chunk_size - c.write_idx

abbrev pub aval_space : Chunk → ℕ
aval_space c = c.chunk_size - (c.write_idx - c.read_idx)

unfoldable pub buffer_chunk_new : ℕ → Chunk
buffer_chunk_new size = record {
  chunk_size = if ltb size buffer_chunk_min then buffer_chunk_min else size;
  read_idx = 0;
  write_idx = 0;
  buf = [];
}

unfoldable pub buffer_chunk_realign : Chunk → Chunk
buffer_chunk_realign c = if c.read_idx == 0 then c else record c {
  read_idx = 0;
  write_idx = c.write_idx - c.read_idx;
  buf = copy_in 0 (copy_out c.read_idx (data_len c) c.buf) c.buf;
}

-- `memcpy` to the place `write_idx`, which is then moved on.
unfoldable pub write_data : Str → Chunk → Chunk
write_data s c = record c { write_idx = c.write_idx + length s; buf = copy_in c.write_idx s c.buf }

-- `read_idx` is moved back, and then `memcpy` to it.
unfoldable pub unread_data : Str → Chunk → Chunk
unread_data s c = record c {
  read_idx = c.read_idx - length s;
  buf = copy_in (c.read_idx - length s) s c.buf;
}

-- The bytes that are there to be read.
unfoldable pub chunk_data : Chunk → Str
chunk_data c = copy_out c.read_idx (data_len c) c.buf

-- The indices are in order, the bytes up to `write_idx` were written, and none was ever written
-- past the end of the chunk's memory.
pub record IsValidChunk (c : Chunk) : Type 0 where
  pub ordered : c.read_idx ≤ c.write_idx
  pub written : c.write_idx ≤ length c.buf
  pub inside : length c.buf ≤ c.chunk_size

length-copy_in :
    (at : ℕ) (s buf : Str)
    → at ≤ length buf
    → length (copy_in at s buf) ≡ at + length s + (length buf - (at + length s))
unfolding copy_in
length-copy_in at s buf h =
    rw (length-append, length-append, length-take, length-drop) (omega arith)

pub length-chunk_data : (c : Chunk) → IsValidChunk c → length (chunk_data c) ≡ data_len c
unfolding chunk_data
length-chunk_data c v = rw (length-take, length-drop) (omega (arith, v.ordered, v.written))

pub new-IsValidChunk :
    (size : ℕ) → let c = buffer_chunk_new size in IsValidChunk c × (size ≤ writeable c)
unfolding buffer_chunk_new
new-IsValidChunk size =
    let v : IsValidChunk (buffer_chunk_new size) = record {
      ordered = omega arith;
      written = omega arith;
      inside = omega arith;
    } in
    (v, ground arith)

pub write-IsValidChunk :
    (s : Str) (c : Chunk) → IsValidChunk c → length s ≤ writeable c → IsValidChunk (write_data s c)
unfolding write_data
write-IsValidChunk s c v h =
    let e = length-copy_in c.write_idx s c.buf v.written in
    record {
      ordered = omega (arith, v.ordered);
      written = omega (arith, e, v.written);
      inside = omega (arith, e, v.written, v.inside);
    }

-- What is written comes after what was there.
pub write-chunk_data :
    (s : Str) (c : Chunk) → IsValidChunk c → chunk_data (write_data s c) ≡ chunk_data c ++ s
unfolding write_data chunk_data copy_in
write-chunk_data s c v =
    let w = c.write_idx in
    let r = c.read_idx in
    let e : length (take w c.buf) ≡ w = length-take w c.buf ∙ omega arith in
    let e₂ = length-append (take w c.buf) s in
    let rest = drop (w + length s) c.buf in
    take-drop r (w + length s - r) (w + length s) (take w c.buf ++ s ++ rest) (omega arith)
    ∙ ap (λ t. drop r t) (take-append_length (take w c.buf ++ s) rest (w + length s) (omega arith))
    ∙ drop-append_le r (take w c.buf) s (omega arith)
    ∙ ap (λ t. t ++ s) (sym (take-drop r (w - r) w c.buf (omega arith)))

-- What is put back comes before what was there.
pub unread-chunk_data :
    (s : Str) (c : Chunk)
    → IsValidChunk c
    → length s ≤ c.read_idx
    → chunk_data (unread_data s c) ≡ s ++ chunk_data c
unfolding unread_data chunk_data copy_in
unread-chunk_data s c v h =
    let w = c.write_idx in
    let r = c.read_idx in
    let at = r - length s in
    let rest = drop (at + length s) c.buf in
    let e : length (take at c.buf) ≡ at = length-take at c.buf ∙ omega arith in
    let e₂ : at + length s ≡ r = omega arith in
    ap (λ t. take (w - at) (drop at t)) (append_assoc (take at c.buf) s rest)
    ∙ ap (λ t. take (w - at) t) (drop-append_length (take at c.buf) (s ++ rest) at (omega arith))
    ∙ take-append_ge (w - at) (w - r) s rest (omega arith)
    ∙ ap (λ i. s ++ take (w - r) (drop i c.buf)) e₂

pub unread-IsValidChunk :
    (s : Str) (c : Chunk) → IsValidChunk c → length s ≤ c.read_idx → IsValidChunk (unread_data s c)
unfolding unread_data
unread-IsValidChunk s c v h =
    let e = length-copy_in (c.read_idx - length s) s c.buf (omega arith) in
    record { ordered = omega arith; written = omega arith; inside = omega arith }

-- Moving the bytes to the start of the chunk keeps them, and frees the space before them.
pub realign-IsValidChunk :
    (c : Chunk)
    → IsValidChunk c
    → let c' = buffer_chunk_realign c in
      IsValidChunk c' × (chunk_data c' ≡ chunk_data c) × (writeable c' ≡ aval_space c)
unfolding buffer_chunk_realign chunk_data copy_in
realign-IsValidChunk c v = elim (Bool-cases (c.read_idx == 0)) [
  | inl e ↦ rw (buffer_chunk_realign, e) (v, refl, ground arith)
  | inr e ↦
      let moved = copy_out c.read_idx (data_len c) c.buf in
      let l : length moved ≡ data_len c = length-chunk_data c v in
      let k = length-copy_in 0 moved c.buf (omega arith) in
      rw (buffer_chunk_realign, e)
        (
          record { ordered = omega arith; written = omega arith; inside = omega arith },
          take-append_length moved (drop (0 + length moved) c.buf) (data_len c - 0) (omega arith),
          omega arith,
        )
]

-- What is written to a new chunk that has room for it.
pub fresh-chunk_data :
    (n : ℕ) (s : Str)
    → n ≡ length s
    → let c = write_data s (buffer_chunk_new n) in IsValidChunk c × (chunk_data c ≡ s)
unfolding chunk_data buffer_chunk_new
fresh-chunk_data n s e =
    let (v, room) = new-IsValidChunk n in
    (write-IsValidChunk s _ v (omega arith), write-chunk_data s (buffer_chunk_new n) v)

-- The first bytes of the chunk.
pub copy-chunk_data :
    (n : ℕ) (c : Chunk) → n ≤ data_len c → copy_out c.read_idx n c.buf ≡ take n (chunk_data c)
unfolding chunk_data
copy-chunk_data n c h = sym (take-take n (data_len c) (drop c.read_idx c.buf) h)

-- The bytes after the first `n` of the chunk.
pub skip-chunk_data :
    (n : ℕ) (c : Chunk)
    → n ≤ data_len c
    → chunk_data (record c { read_idx = c.read_idx + n }) ≡ drop n (chunk_data c)
unfolding chunk_data
skip-chunk_data n c h =
    let w = c.write_idx in
    let r = c.read_idx in
    ap (λ t. take (w - (r + n)) t) (sym (drop-drop n r (r + n) c.buf refl))
    ∙ take-drop n (w - (r + n)) (w - r) (drop r c.buf) (omega arith)

pub skip-IsValidChunk :
    (n : ℕ) (c : Chunk)
    → IsValidChunk c
    → n ≤ data_len c
    → IsValidChunk (record c { read_idx = c.read_idx + n })
skip-IsValidChunk n c v h = record { ordered = omega arith; written = v.written; inside = v.inside }
