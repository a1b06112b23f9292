-- ===== src/Buffer/Bytes.antt =====
-- What each operation of the buffer does to the bytes that it holds.
use tiny_mqtt.Prelude.{
  ℕ, suc, ◌+◌, ◌-◌, ◌≤◌, min, ◌≡◌, refl, sym, ap, ◌∙◌, List, [], ◌∷◌, ◌++◌, append-nil,
  append_assoc, Str, leb, Bool-cases, inl, inr, length, take, drop, length-append, length-take,
  length-drop, take-all, drop-all, arith, ◌==◌,
}
use tiny_mqtt.Codec.Read.{read_str, zeros}
use tiny_mqtt.Buffer.Memory.{Chunk, unread_data, chunk_data, unread-chunk_data, unread-IsValidChunk}
use tiny_mqtt.Buffer.Refine.{
  IsValidQueue, append_queue-Holds, copy_chunks-take, skip_chunks-Holds, length-skip_chunks,
}
use tiny_mqtt.Buffer.{
  Buffer, buffer_append, buffer_init, buffer_peek, buffer_read, buffer_prepend, prepend_to,
  skip_chunks, buffer_remove, contents,
}

-- The bytes of a buffer, in the order in which they are read.
abbrev pub bytes_of : Buffer → Str
bytes_of b = contents b.queue

pub record IsValidBuffer (b : Buffer) : Type 0 where
  pub chunks_valid : IsValidQueue b.queue
  pub counted : b.readable_bytes ≡ length (bytes_of b)
  pub no_fewer : length b.queue ≤ b.chunks

-- A valid buffer that holds the bytes `s`.
abbrev pub Models : Buffer → Str → Type 0
Models b s = IsValidBuffer b × (bytes_of b ≡ s)

take-min : (n : ℕ) (s : Str) → take (min n (length s)) s ≡ take n s
take-min n s = elim (Bool-cases (leb n (length s))) [
  | inl e ↦ ap (λ i. take i s) (ground arith)
  | inr e ↦ take-all _ s (ground arith) ∙ sym (take-all n s (ground arith))
]

drop-min : (n : ℕ) (s : Str) → drop (min n (length s)) s ≡ drop n s
drop-min n s = elim (Bool-cases (leb n (length s))) [
  | inl e ↦ ap (λ i. drop i s) (ground arith)
  | inr e ↦ drop-all _ s (ground arith) ∙ sym (drop-all n s (ground arith))
]

pub buffer_init-Models : Models buffer_init []
unfolding buffer_init contents
buffer_init-Models = (record { chunks_valid = tt; counted = refl; no_fewer = omega arith }, refl)

-- Appending to a valid buffer leaves a valid buffer, no byte of it written past the end of a
-- chunk, that holds the appended bytes after those it held.
pub buffer_append-Models :
    (s : Str) (b : Buffer) → IsValidBuffer b → Models (buffer_append s b) (bytes_of b ++ s)
unfolding buffer_append
buffer_append-Models [] b v = (v, sym (append-nil _))
buffer_append-Models (x ∷ s) b v =
    let (vs, e) = append_queue-Holds b.queue (x ∷ s) v.chunks_valid in
    (
      record {
        chunks_valid = vs;
        counted = omega (arith, v.counted, ap length e, length-append (bytes_of b) (x ∷ s));
        no_fewer = omega arith;
      },
      e,
    )

-- Peeking gives the first bytes.
pub buffer_peek-take :
    (n : ℕ) (b : Buffer) → IsValidBuffer b → buffer_peek n b ≡ take n (bytes_of b)
unfolding buffer_peek
buffer_peek-take n b v =
    copy_chunks-take _ b.queue v.chunks_valid
    ∙ ap (λ i. take (min n i) (bytes_of b)) v.counted
    ∙ take-min n (bytes_of b)

skip-Models :
    (n count left : ℕ) (b : Buffer)
    → IsValidBuffer b
    → left ≡ b.readable_bytes - n
    → let queue = skip_chunks (min n b.readable_bytes) b.queue in
      length queue ≤ count
      → Models
          (record { chunks = count; queue = queue; readable_bytes = left })
          (drop n (bytes_of b))
skip-Models n count left b v e h =
    let (vs, k) = skip_chunks-Holds (min n b.readable_bytes) b.queue v.chunks_valid in
    let k₂ = k ∙ ap (λ i. drop (min n i) (bytes_of b)) v.counted ∙ drop-min n (bytes_of b) in
    (
      record {
        chunks_valid = vs;
        counted = omega (arith, v.counted, ap length k₂, length-drop n (bytes_of b));
        no_fewer = h;
      },
      k₂,
    )

-- Reading gives the first bytes, and leaves the others in a valid buffer.
pub buffer_read-Models :
    (n : ℕ) (b : Buffer)
    → IsValidBuffer b
    → let (out, rest) = buffer_read n b in
      (out ≡ take n (bytes_of b)) × Models rest (drop n (bytes_of b))
unfolding buffer_read
buffer_read-Models n b v = elim (Bool-cases (n == 0)) [
  | inl e ↦ let z : n ≡ 0 = ground arith in rw (buffer_read, e) (rw z (refl, (v, refl)))
  | inr e ↦
      let k = buffer_peek-take n b v in
      let l = length-skip_chunks (min n b.readable_bytes) b.queue in
      rw (buffer_read, e)
        (
          k,
          skip-Models n b.chunks _ b v
              (omega (arith, v.counted, ap length k, length-take n (bytes_of b))) (omega arith),
        )
]

-- No chunk, no byte.
contents_empty : (cs : List Chunk) → length cs ≡ 0 → contents cs ≡ []
unfolding contents
contents_empty [] h = refl
contents_empty (c ∷ cs) h = absurd (omega arith)

pub buffer_remove-Models :
    (n : ℕ) (b : Buffer) → IsValidBuffer b → Models (buffer_remove n b) (drop n (bytes_of b))
unfolding buffer_remove
buffer_remove-Models n b v = elim (Bool-cases (n == 0)) [
  | inl e ↦ let z : n ≡ 0 = ground arith in rw (buffer_remove, e) (rw z (v, refl))
  | inr e ↦ elim (Bool-cases (length b.queue == 0)) [
    | inl e₂ ↦
        let z = contents_empty b.queue (ground arith) in
        rw (buffer_remove, e, e₂) (v, z ∙ sym (ap (λ t. drop n t) z ∙ drop-all n [] (omega arith)))
    | inr e₂ ↦
        let l = length-skip_chunks (min n b.readable_bytes) b.queue in
        rw (buffer_remove, e, e₂) (skip-Models n _ _ b v (omega arith) (omega arith))
  ]
]

-- The codec's read of a string is the buffer's.
pub buffer_read-read_str :
    (n : ℕ) (b : Buffer)
    → IsValidBuffer b
    → let (out, rest) = buffer_read n b in
      read_str n (bytes_of b) ≡ (out ++ zeros (n - length out), bytes_of rest)
unfolding read_str
buffer_read-read_str n b v =
    let (e, (_, k)) = buffer_read-Models n b v in
    let l : n - length (bytes_of b) ≡ n - length (buffer_read n b).0 =
      omega (arith, ap length e, length-take n (bytes_of b)) in
    ap (λ t. (take n (bytes_of b) ++ zeros t, drop n (bytes_of b))) l
    ∙ ap (λ t. (t ++ zeros (n - length (buffer_read n b).0), drop n (bytes_of b))) (sym e)
    ∙ ap (λ t. ((buffer_read n b).0 ++ zeros (n - length (buffer_read n b).0), t)) (sym k)

-- The bytes of `s` that fit before the data of the first chunk are put back there.
unread-Models :
    (s : Str) (b : Buffer) (c : Chunk) (cs : List Chunk) (count total : ℕ)
    → b.queue ≡ c ∷ cs
    → IsValidBuffer b
    → length s ≤ c.read_idx
    → b.chunks ≤ count
    → total ≡ b.readable_bytes + length s
    → let b' : Buffer = record {
      chunks = count;
      queue = unread_data s c ∷ cs;
      readable_bytes = total;
    } in
      Models b' (s ++ contents (c ∷ cs))
unfolding contents
unread-Models s b c cs count total e v h h₂ h₃ =
    let (vc, vs) = rw e at v.chunks_valid in
    let k = unread-chunk_data s c vc h in
    let k₂ : chunk_data (unread_data s c) ++ contents cs ≡ s ++ contents (c ∷ cs) =
      ap (λ t. t ++ contents cs) k ∙ append_assoc s (chunk_data c) (contents cs) in
    let l : length (bytes_of b) ≡ length (contents (c ∷ cs)) = ap (λ t. length (contents t)) e in
    (
      record {
        chunks_valid = (unread-IsValidChunk s c vc h, vs);
        counted = omega (arith, v.counted, ap length k₂, length-append s (contents (c ∷ cs)));
        no_fewer = omega (arith, ap length e, v.no_fewer);
      },
      k₂,
    )

-- Prepending to a buffer with a chunk gives the bytes and those it held, if they fit before the
-- first chunk's data; if not, the first of them are lost, so many as do not fit.
pub buffer_prepend-Models :
    (s : Str) (b : Buffer) (c : Chunk) (cs : List Chunk)
    → b.queue ≡ c ∷ cs
    → IsValidBuffer b
    → Models (buffer_prepend s b) (drop (length s - c.read_idx) s ++ bytes_of b)
unfolding buffer_prepend prepend_to
buffer_prepend-Models s b c cs e v = elim (Bool-cases (leb (length s) c.read_idx)) [
  | inl h ↦
      let z : length s - c.read_idx ≡ 0 = ground arith in
      rw (z, buffer_prepend, e, prepend_to, h)
        (unread-Models s b c cs b.chunks _ e v (ground arith) (omega arith) refl)
  | inr h ↦
      let k = length-drop (length s - c.read_idx) s in
      rw (buffer_prepend, e, prepend_to, h)
        (unread-Models (drop (length s - c.read_idx) s) b c cs (suc b.chunks) _ e v (ground arith)
          (omega arith) (ground arith))
]
