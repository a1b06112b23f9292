-- ===== src/Buffer.antt =====
-- net/mqtt_buffer.c, the buffer of a connection: a list of chunks, from `first` through the `next`
-- pointers to `last`. A call that does nothing on NULL is a call that is not made here. The sizes
-- stay below 2^64, so no size_t wraps.
pub mod Memory
pub mod Refine
pub mod Bytes
pub mod Sockets
pub mod Fifo
mod Tests
use tiny_mqtt.Prelude.{
  ℕ, suc, ◌+◌, ◌-◌, ◌*◌, min, Option, none, some, List, [], ◌∷◌, ◌++◌, Str, if◌then◌else◌, ltb, leb,
  ◌==◌, ◌||◌, length, take, drop,
}
use tiny_mqtt.Buffer.Memory.{
  Chunk, data_len, writeable, aval_space, copy_out, buffer_chunk_new, buffer_chunk_realign,
  write_data, unread_data, chunk_data,
}

-- `chunks` is the code's count; the list itself is `queue`.
pub record Buffer : Type 0 where
  pub chunks : ℕ
  pub queue : List Chunk
  pub readable_bytes : ℕ

unfoldable pub buffer_init : Buffer
buffer_init = record { chunks = 0; queue = []; readable_bytes = 0 }

-- The two ends of an append that does not fit into the last chunk.
unfoldable pub spill : Chunk → Str → List Chunk
spill c s =
    let n = writeable c in
    write_data (take n s) c ∷ write_data (drop n s) (buffer_chunk_new (length s - n)) ∷ []

-- The last chunk after an append, with the chunk that it may have needed.
unfoldable pub append_last : Chunk → Str → List Chunk
unfolding spill
append_last c s =
    if leb (length s) (writeable c)
    then write_data s c ∷ []
    else if leb (length s) (aval_space c)
    then write_data s (buffer_chunk_realign c) ∷ []
    else spill c s

unfoldable pub append_queue : List Chunk → Str → List Chunk
append_queue [] s = write_data s (buffer_chunk_new (length s)) ∷ []
append_queue (c ∷ []) s = append_last c s
append_queue (c ∷ d ∷ cs) s = c ∷ append_queue (d ∷ cs) s

-- `chunks++` stands in the two branches that make a chunk.
unfoldable pub buffer_append : Str → Buffer → Buffer
buffer_append [] b = b
buffer_append (x ∷ s) b =
    let queue = append_queue b.queue (x ∷ s) in
    record {
      chunks = b.chunks + (length queue - length b.queue);
      queue = queue;
      readable_bytes = b.readable_bytes + length (x ∷ s);
    }

-- By the chunks of the buffer. The chunk that the last branch makes is linked to nothing, so that
-- it is no part of the result. `size` has been lowered by what went into that chunk.
unfoldable pub prepend_to : List Chunk → Str → Buffer → Buffer
prepend_to [] s b = record {
  chunks = suc b.chunks;
  queue = write_data s (buffer_chunk_new (length s)) ∷ [];
  readable_bytes = b.readable_bytes + length s;
}
prepend_to (c ∷ cs) s b =
    if leb (length s) c.read_idx
    then record b { queue = unread_data s c ∷ cs; readable_bytes = b.readable_bytes + length s }
    else let remain = length s - c.read_idx in
      record {
        chunks = suc b.chunks;
        queue = unread_data (drop remain s) c ∷ cs;
        readable_bytes = b.readable_bytes + (length s - remain);
      }

unfoldable pub buffer_prepend : Str → Buffer → Buffer
buffer_prepend s b = prepend_to b.queue s b

-- The loop of `buffer_read_internal`, and the part of a chunk after it: the bytes copied.
unfoldable pub copy_chunks : ℕ → List Chunk → Str
copy_chunks size [] = []
copy_chunks size (c ∷ cs) =
    let rest = copy_chunks (size - data_len c) cs in
    if leb (data_len c) size then chunk_data c ++ rest else copy_out c.read_idx size c.buf

-- The chunks that are left after the loop, with the index of the first moved on.
unfoldable pub skip_chunks : ℕ → List Chunk → List Chunk
skip_chunks size [] = []
skip_chunks size (c ∷ cs) =
    let rest = skip_chunks (size - data_len c) cs in
    if leb (data_len c) size then rest else record c { read_idx = c.read_idx + size } ∷ cs

-- What is copied out.
unfoldable pub buffer_peek : ℕ → Buffer → Str
buffer_peek size b = copy_chunks (min size b.readable_bytes) b.queue

-- What is copied out, and the buffer after it. A size of 0 returns at once. The count of chunks is
-- not lowered.
unfoldable pub buffer_read : ℕ → Buffer → Str × Buffer
buffer_read size b =
    if size == 0
    then ([], b)
    else let out = buffer_peek size b in
      (
        out,
        record b {
          queue = skip_chunks (min size b.readable_bytes) b.queue;
          readable_bytes = b.readable_bytes - length out;
        },
      )

-- The value of bytes in network order. `none`: fewer than `n` bytes, the others of the variable are
-- left as they were.
abbrev pub big_endian : ℕ → ℕ → Str → Option ℕ
big_endian v n [] = if n == 0 then some v else none
big_endian v n (x ∷ s) = big_endian (v * 256 + x) (n - 1) s

abbrev pub buffer_peek16 : Buffer → Option ℕ
buffer_peek16 b = big_endian 0 2 (buffer_peek 2 b)

abbrev pub buffer_peek32 : Buffer → Option ℕ
buffer_peek32 b = big_endian 0 4 (buffer_peek 4 b)

abbrev pub buffer_peek64 : Buffer → Option ℕ
buffer_peek64 b = big_endian 0 8 (buffer_peek 8 b)

abbrev pub buffer_read16 : Buffer → Option ℕ × Buffer
buffer_read16 b = let (out, rest) = buffer_read 2 b in (big_endian 0 2 out, rest)

-- These two peek, so that the bytes stay in the buffer.
abbrev pub buffer_read32 : Buffer → Option ℕ × Buffer
buffer_read32 b = (big_endian 0 4 (buffer_peek 4 b), b)

abbrev pub buffer_read64 : Buffer → Option ℕ × Buffer
buffer_read64 b = (big_endian 0 8 (buffer_peek 8 b), b)

unfoldable pub buffer_remove : ℕ → Buffer → Buffer
buffer_remove size b =
    if (size == 0) || (length b.queue == 0)
    then b
    else let queue = skip_chunks (min size b.readable_bytes) b.queue in
      record {
        chunks = b.chunks - (length b.queue - length queue);
        queue = queue;
        readable_bytes = b.readable_bytes - min size b.readable_bytes;
      }

fd_max_read_bytes : ℕ
fd_max_read_bytes = 65536

unfoldable pub read_limit : ℕ → ℕ → ℕ
unfolding fd_max_read_bytes
read_limit max fd_readable =
    if max == 0
    then min fd_readable fd_max_read_bytes
    else min fd_readable (min max fd_max_read_bytes)

-- The place for `s` after the end of the last chunk, and in a new chunk for what is over.
unfoldable pub read_queue : List Chunk → Str → List Chunk
unfolding spill
read_queue [] s = if length s == 0 then [] else write_data s (buffer_chunk_new (length s)) ∷ []
read_queue (c ∷ []) s = if leb (length s) (writeable c) then write_data s c ∷ [] else spill c s
read_queue (c ∷ d ∷ cs) s = c ∷ read_queue (d ∷ cs) s

-- `if(n > 0) buffer->readable_bytes += n`
abbrev pub delivered : Option ℕ → ℕ
delivered none = 0
delivered (some n) = n

-- `ioctl` gives the bytes that wait in the socket, or fails; `readv` is asked for so many bytes,
-- and gives the memory it was handed, as it is after the call, and its result. The indices of the
-- chunks are moved on before the call, by all that was asked for.
unfoldable pub buffer_read_fd : Option ℕ → (ℕ → Str × Option ℕ) → ℕ → Buffer → Option ℕ × Buffer
unfolding read_limit read_queue
buffer_read_fd none readv max b = (some 0, b)
buffer_read_fd (some fd_readable) readv max b =
    let (s, n) = readv (read_limit max fd_readable) in
    let queue = read_queue b.queue s in
    (
      n,
      record {
        chunks = b.chunks + (length queue - length b.queue);
        queue = queue;
        readable_bytes = b.readable_bytes + delivered n;
      },
    )

unfoldable pub contents : List Chunk → Str
contents [] = []
contents (c ∷ cs) = chunk_data c ++ contents cs

-- `writev` is handed the bytes of all the chunks, and gives how many of them it took, or fails.
unfoldable pub buffer_write_fd : (Str → Option ℕ) → Buffer → Option ℕ × Buffer
buffer_write_fd writev b = elim (writev (contents b.queue)) [
  | none ↦ (none, b)
  | some n ↦ (some n, buffer_remove n b)
]
