-- ===== src/Buffer/Tests.antt =====
-- Runs of the buffer, and the theorems at concrete inputs.
use tiny_mqtt.Prelude.{◌-◌, ◌≡◌, refl, ◌↔◌, some, List, [], ◌∷◌, ◌++◌, bytes, length}
use tiny_mqtt.Codec.Read.{read_str, zeros}
use tiny_mqtt.Buffer.Memory.{write_data, buffer_chunk_new, copy_in, chunk_data}
use tiny_mqtt.Buffer.Bytes.{
  bytes_of, IsValidBuffer, Models, buffer_init-Models, buffer_append-Models, buffer_read-Models,
  buffer_prepend-Models, buffer_read-read_str,
}
use tiny_mqtt.Buffer.Sockets.{buffer_read_fd-IsValidBuffer}
use tiny_mqtt.Buffer.Fifo.{Op, run, step, inputs, run-in_order, append, read, send}
use tiny_mqtt.Buffer.{
  Buffer, buffer_init, buffer_append, buffer_read, buffer_prepend, buffer_read_fd, buffer_write_fd,
  delivered, contents, buffer_peek, copy_chunks, append_queue, append_last, skip_chunks,
  buffer_remove,
}

abbrev hello : Buffer
hello = buffer_append (bytes "hello") buffer_init

hello-IsValidBuffer : IsValidBuffer hello
hello-IsValidBuffer = (buffer_append-Models (bytes "hello") buffer_init buffer_init-Models.0).0

-- A write, a read of its first part, and a send of more than is left.
abbrev ops : List Op
ops = append (bytes " you") ∷ read 3 ∷ send 9 ∷ []

hello_you : ((run ops hello).0 ≡ bytes "hello you") × (bytes_of (run ops hello).1 ≡ [])
unfolding buffer_init run step buffer_read buffer_peek copy_chunks buffer_append append_queue
    append_last write_data buffer_chunk_new copy_in contents skip_chunks chunk_data buffer_write_fd
    buffer_remove
hello_you = (refl, refl)

buffer_append-Models_example :
    Models (buffer_append (bytes " you") hello) (bytes_of hello ++ bytes " you")
buffer_append-Models_example = buffer_append-Models (bytes " you") hello hello-IsValidBuffer

buffer_read-read_str_example :
    let (out, rest) = buffer_read 7 hello in
    read_str 7 (bytes_of hello) ≡ (out ++ zeros (7 - length out), bytes_of rest)
buffer_read-read_str_example = buffer_read-read_str 7 hello hello-IsValidBuffer

run-in_order_example :
    let (out, b') = run ops hello in
    IsValidBuffer b' × (out ++ bytes_of b' ≡ bytes_of hello ++ inputs ops)
run-in_order_example = run-in_order ops hello hello-IsValidBuffer

-- Two bytes go before the data of a chunk of which one byte was read: the first of them is lost.
buffer_prepend-Models_example :
    let b = (buffer_read 1 hello).1 in
    Models (buffer_prepend (bytes "JH") b) (bytes "H" ++ bytes_of b)
unfolding buffer_init buffer_read buffer_peek copy_chunks buffer_append append_queue write_data
    buffer_chunk_new copy_in skip_chunks chunk_data contents
buffer_prepend-Models_example =
    let b = (buffer_read 1 hello).1 in
    buffer_prepend-Models (bytes "JH") b
      (record { chunk_size = 512; read_idx = 1; write_idx = 5; buf = bytes "hello" }) [] refl
      (buffer_read-Models 1 hello hello-IsValidBuffer).1.0

-- The socket has three bytes, and `readv` gives them.
buffer_read_fd-IsValidBuffer_example :
    let (m, b') = buffer_read_fd (some 3) (λ _. (bytes "abc", some 3)) 0 hello in
    (m ≡ some 3)
    × (bytes_of b' ≡ bytes_of hello ++ bytes "abc")
    × (IsValidBuffer b' ↔ (delivered (some 3) ≡ length (bytes "abc")))
buffer_read_fd-IsValidBuffer_example =
    buffer_read_fd-IsValidBuffer 3 (λ _. (bytes "abc", some 3)) 0 hello hello-IsValidBuffer
