-- ===== src/Buffer/Fifo.antt =====
-- Any sequence of the buffer's operations is one of a queue of bytes.
use tiny_mqtt.Prelude.{
  ℕ, ◌≡◌, refl, sym, some, List, [], ◌∷◌, ◌++◌, append-nil, append_assoc, Str, take,
  take-append-drop,
}
use tiny_mqtt.Buffer.Bytes.{bytes_of, IsValidBuffer, buffer_append-Models, buffer_read-Models}
use tiny_mqtt.Buffer.Sockets.{buffer_write_fd-Models}
use tiny_mqtt.Buffer.{Buffer, buffer_append, buffer_read, buffer_write_fd}

-- `append s`, `read n`, and a `write_fd` of which the socket takes `n` bytes.
pub data Op : Type 0 where
  append : Str → Op
  read : ℕ → Op
  send : ℕ → Op

-- What goes into the buffer, and what comes out, in the order of the operations.
unfoldable pub inputs : List Op → Str
inputs [] = []
inputs (append s ∷ ops) = s ++ inputs ops
inputs (read n ∷ ops) = inputs ops
inputs (send n ∷ ops) = inputs ops

unfoldable pub step : Op → Buffer → Str × Buffer
step (append s) b = ([], buffer_append s b)
step (read n) b = buffer_read n b
step (send n) b = (take n (bytes_of b), (buffer_write_fd (λ _. some n) b).1)

unfoldable pub run : List Op → Buffer → Str × Buffer
run [] b = ([], b)
run (op ∷ ops) b = let (out, b₁) = step op b in let (outs, b₂) = run ops b₁ in (out ++ outs, b₂)

step-in_order :
    (op : Op) (b : Buffer)
    → IsValidBuffer b
    → let (out, b') = step op b in
      IsValidBuffer b' × (out ++ bytes_of b' ≡ bytes_of b ++ inputs (op ∷ []))
unfolding step inputs buffer_write_fd
step-in_order (append s) b v = let (w, e) = buffer_append-Models s b v in (w, rw append-nil e)
step-in_order (read n) b v =
    let (e, (w, k)) = buffer_read-Models n b v in (w, rw (append-nil, e, k) (take-append-drop n _))
step-in_order (send n) b v =
    let (e, (w, k)) = buffer_write_fd-Models (λ _. some n) b v in
    (w, rw (append-nil, k) (take-append-drop n _))

inputs-cons : (op : Op) (ops : List Op) → inputs (op ∷ ops) ≡ inputs (op ∷ []) ++ inputs ops
unfolding inputs
inputs-cons (append s) ops = rw append-nil refl
inputs-cons (read n) ops = refl
inputs-cons (send n) ops = refl

-- From a valid buffer, what comes out, with what is then left, is what the buffer held, with what
-- was put in: no byte is lost, doubled or moved, whatever the order of the operations.
pub run-in_order :
    (ops : List Op) (b : Buffer)
    → IsValidBuffer b
    → let (out, b') = run ops b in
      IsValidBuffer b' × (out ++ bytes_of b' ≡ bytes_of b ++ inputs ops)
unfolding run inputs
run-in_order [] b v = (v, sym (append-nil _))
run-in_order (op ∷ ops) b v =
    let (w, e) = step-in_order op b v in
    let (w₂, e₂) = run-in_order ops _ w in
    (
      w₂,
      rw (append_assoc, e₂, inputs-cons op ops, ← append_assoc, e)
          (append_assoc (bytes_of b) (inputs (op ∷ [])) (inputs ops)),
    )
