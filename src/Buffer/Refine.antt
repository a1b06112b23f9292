-- ===== src/Buffer/Refine.antt =====
-- The buffer's operations as operations on its bytes.
use tiny_mqtt.Prelude.{
  ℕ, ◌-◌, ◌≤◌, ◌≡◌, refl, sym, ap, ◌∙◌, List, [], ◌∷◌, ◌++◌, append-nil, append_assoc, Str, leb,
  Bool-cases, inl, inr, length, take, drop, All, length-take, length-drop, take-append-drop,
  take-append_le, take-append_ge, drop-append_le, drop-append_ge, take-all, drop-all, arith, ◌==◌,
}
use tiny_mqtt.Buffer.Memory.{
  Chunk, data_len, writeable, aval_space, buffer_chunk_new, write_data, chunk_data, IsValidChunk,
  length-chunk_data, fresh-chunk_data, copy-chunk_data, skip-IsValidChunk, write-IsValidChunk,
  write-chunk_data, realign-IsValidChunk, skip-chunk_data,
}
use tiny_mqtt.Buffer.{
  spill, append_last, append_queue, copy_chunks, skip_chunks, contents, read_queue,
}

abbrev pub IsValidQueue : List Chunk → Type 0
IsValidQueue = All IsValidChunk

-- What an operation leaves in the chunks: valid chunks that hold the bytes `s`.
abbrev pub Holds : List Chunk → Str → Type 0
Holds cs s = IsValidQueue cs × (contents cs ≡ s)

fresh-Holds : (s : Str) → Holds (write_data s (buffer_chunk_new (length s)) ∷ []) s
unfolding contents
fresh-Holds s = let (v, e) = fresh-chunk_data (length s) s refl in ((v, tt), append-nil _ ∙ e)

pub spill-Holds :
    (c : Chunk) (s : Str)
    → IsValidChunk c
    → writeable c ≤ length s
    → Holds (spill c s) (chunk_data c ++ s)
unfolding spill contents
spill-Holds c s v h =
    let n = writeable c in
    let e = length-take n s in
    let (v₂, e₂) = fresh-chunk_data (length s - n) (drop n s) (sym (length-drop n s)) in
    (
      (write-IsValidChunk (take n s) c v (omega arith), (v₂, tt)),
      rw (write-chunk_data (take n s) c v, append-nil, e₂, append_assoc, take-append-drop) refl,
    )

append_last-Holds :
    (c : Chunk) (s : Str) → IsValidChunk c → Holds (append_last c s) (chunk_data c ++ s)
unfolding append_last contents
append_last-Holds c s v = elim (Bool-cases (leb (length s) (writeable c))) [
  | inl e ↦
      rw (append_last, e)
        ((write-IsValidChunk s c v (ground arith), tt), append-nil _ ∙ write-chunk_data s c v)
  | inr e ↦ elim (Bool-cases (leb (length s) (aval_space c))) [
    | inl e₂ ↦
        let (v₂, same, room) = realign-IsValidChunk c v in
        rw (append_last, e, e₂)
          (
            (write-IsValidChunk s _ v₂ (ground arith), tt),
            append-nil _ ∙ write-chunk_data s _ v₂ ∙ ap (λ t. t ++ s) same,
          )
    | inr e₂ ↦ rw (append_last, e, e₂) (spill-Holds c s v (ground arith))
  ]
]

pub append_queue-Holds :
    (cs : List Chunk) (s : Str) → IsValidQueue cs → Holds (append_queue cs s) (contents cs ++ s)
unfolding append_queue contents
append_queue-Holds [] s v = fresh-Holds s
append_queue-Holds (c ∷ []) s (v, _) = rw append-nil (append_last-Holds c s v)
append_queue-Holds (c ∷ d ∷ cs) s (v, vs) =
    let (us, e) = append_queue-Holds (d ∷ cs) s vs in
    ((v, us), ap (λ t. chunk_data c ++ t) e ∙ sym (append_assoc (chunk_data c) _ s))

pub copy_chunks-take :
    (n : ℕ) (cs : List Chunk) → IsValidQueue cs → copy_chunks n cs ≡ take n (contents cs)
unfolding copy_chunks contents
copy_chunks-take n [] v = sym (take-all n [] (omega arith))
copy_chunks-take n (c ∷ cs) (v, vs) =
    let l = length-chunk_data c v in
    elim (Bool-cases (leb (data_len c) n)) [
      | inl e ↦
          rw (copy_chunks, e)
            (ap (λ t. chunk_data c ++ t) (copy_chunks-take (n - data_len c) cs vs)
              ∙ sym (take-append_ge n (n - data_len c) (chunk_data c) (contents cs) (ground arith)))
      | inr e ↦
          rw (copy_chunks, e)
            (copy-chunk_data n c (ground arith)
              ∙ sym (take-append_le n (chunk_data c) (contents cs) (ground arith)))
    ]

pub skip_chunks-Holds :
    (n : ℕ) (cs : List Chunk) → IsValidQueue cs → Holds (skip_chunks n cs) (drop n (contents cs))
unfolding skip_chunks contents
skip_chunks-Holds n [] v = (tt, sym (drop-all n [] (omega arith)))
skip_chunks-Holds n (c ∷ cs) (v, vs) =
    let l = length-chunk_data c v in
    elim (Bool-cases (leb (data_len c) n)) [
      | inl e ↦
          let (us, k) = skip_chunks-Holds (n - data_len c) cs vs in
          rw (skip_chunks, e)
            (
              us,
              k
                  ∙ sym (
                      drop-append_ge n (n - data_len c) (chunk_data c) (contents cs)
                        (ground arith)),
            )
      | inr e ↦
          let h : n ≤ data_len c = ground arith in
          rw (skip_chunks, e)
            (
              (skip-IsValidChunk n c v h, vs),
              ap (λ t. t ++ contents cs) (skip-chunk_data n c h)
                  ∙ sym (drop-append_le n (chunk_data c) (contents cs) (ground arith)),
            )
    ]

pub length-skip_chunks : (n : ℕ) (cs : List Chunk) → length (skip_chunks n cs) ≤ length cs
unfolding skip_chunks
length-skip_chunks n [] = omega arith
length-skip_chunks n (c ∷ cs) = elim (Bool-cases (leb (data_len c) n)) [
  | inl e ↦ let k = length-skip_chunks (n - data_len c) cs in rw (skip_chunks, e) (omega arith)
  | inr e ↦ rw (skip_chunks, e) (omega arith)
]

pub read_queue-Holds :
    (cs : List Chunk) (s : Str) → IsValidQueue cs → Holds (read_queue cs s) (contents cs ++ s)
unfolding read_queue contents
read_queue-Holds [] s v = elim (Bool-cases (length s == 0)) [
  | inl e ↦ rw (read_queue, e) (tt, take-all 0 s (ground arith))
  | inr e ↦ rw (read_queue, e) (fresh-Holds s)
]
read_queue-Holds (c ∷ []) s (v, _) = elim (Bool-cases (leb (length s) (writeable c))) [
  | inl e ↦
      rw (append-nil, read_queue, e)
        ((write-IsValidChunk s c v (ground arith), tt), append-nil _ ∙ write-chunk_data s c v)
  | inr e ↦ rw (append-nil, read_queue, e) (spill-Holds c s v (ground arith))
]
read_queue-Holds (c ∷ d ∷ cs) s (v, vs) =
    let (us, e) = read_queue-Holds (d ∷ cs) s vs in
    ((v, us), ap (λ t. chunk_data c ++ t) e ∙ sym (append_assoc (chunk_data c) _ s))
