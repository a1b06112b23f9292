-- ===== src/Buffer/Sockets.antt =====
-- The buffer and the socket: `tmq_buffer_read_fd` and `tmq_buffer_write_fd`.
use tiny_mqtt.Prelude.{
  ℕ, ◌≡◌, refl, ap, ◌↔◌, Option, Option-cases, inl, inr, some, ◌++◌, Str, length, drop,
  length-append, arith,
}
use tiny_mqtt.Buffer.Refine.{read_queue-Holds}
use tiny_mqtt.Buffer.Bytes.{bytes_of, IsValidBuffer, Models, buffer_remove-Models}
use tiny_mqtt.Buffer.{Buffer, read_limit, delivered, buffer_read_fd, buffer_write_fd}

-- All the memory that is handed to `readv` counts as data afterwards; the buffer stays valid
-- exactly if `readv` filled all of it.
pub buffer_read_fd-IsValidBuffer :
    (fd_readable : ℕ) (readv : ℕ → Str × Option ℕ) (max : ℕ) (b : Buffer)
    → IsValidBuffer b
    → let (s, n) = readv (read_limit max fd_readable) in
      let (m, b') = buffer_read_fd (some fd_readable) readv max b in
      (m ≡ n) × (bytes_of b' ≡ bytes_of b ++ s) × (IsValidBuffer b' ↔ (delivered n ≡ length s))
unfolding buffer_read_fd
buffer_read_fd-IsValidBuffer fd_readable readv max b v =
    let (s, n) = readv (read_limit max fd_readable) in
    let (vs, e) = read_queue-Holds b.queue s v.chunks_valid in
    let l = ap length e in
    let l₂ = length-append (bytes_of b) s in
    (
      refl,
      e,
      (
        (λ w. omega (arith, w.counted, v.counted)),
        λ k. record {
          chunks_valid = vs;
          counted = omega (arith, v.counted);
          no_fewer = omega (arith, v.no_fewer);
        },
      ),
    )

-- A failed `writev` leaves the buffer; else the bytes it took, and the bytes that the buffer holds
-- then, are those it held before, in order.
pub buffer_write_fd-Models :
    (writev : Str → Option ℕ) (b : Buffer)
    → IsValidBuffer b
    → let (n, b') = buffer_write_fd writev b in
      (n ≡ writev (bytes_of b)) × Models b' (drop (delivered n) (bytes_of b))
unfolding buffer_write_fd
buffer_write_fd-Models writev b v = elim (Option-cases (writev (bytes_of b))) [
  | inl e ↦ rw (buffer_write_fd, e) (refl, (v, refl))
  | inr (n, e) ↦ rw (buffer_write_fd, e) (refl, buffer_remove-Models n b v)
]
