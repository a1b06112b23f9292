-- ===== src/Codec/RemainLength.antt =====
-- codec/mqtt_proto_codec.c: the variable length encoding of the remaining length, written by
-- make_fixed_header and read by parse_remain_length, in one piece or in several.
use tiny_mqtt.Prelude.{
  ℕ, ◌+◌, ◌*◌, ◌/◌, ◌%◌, ◌<◌, ◌≤◌, ◌≡◌, ◌≢◌, refl, sym, ap, ◌∙◌, ◌⊎◌, append-nil, append_assoc,
  length, length-append, true, false, [], ◌∷◌, ◌++◌, Str, ltb, leb, arith, Bool-cases, inl, inr,
}
use tiny_mqtt.Codec.{
  Lengths, Conn, DecodeStatus, parse_remain_length, remain_length_loop, decode_ok, need_more_data,
}
use tiny_mqtt.Codec.Send.{remain_bytes}

-- Reading ended with this length, and left these bytes.
abbrev pub ReadsAs : Lengths → ℕ → Str → Type 0
ReadsAs l n rest = (l.status ≡ decode_ok) × (l.remain_length ≡ n) × (l.rest ≡ rest)

-- The loop on a byte that is the last, and on one that is not, while the sum is below 2^32.
loop-last :
    (byte a m : ℕ) (rest : Str)
    → byte < 128
    → m ≤ 2097152
    → a + byte * m < 4294967296
    → ReadsAs (remain_length_loop (byte ∷ rest) a m) (a + byte * m) rest
unfolding remain_length_loop
loop-last byte a m rest byte< m≤ total< =
    let e : byte % 128 ≡ byte = omega arith in
    let b : leb 128 byte ≡ false = ground arith in
    let c : ltb 2097152 m ≡ false = ground arith in
    let d : (a + byte * m) % 4294967296 ≡ a + byte * m = omega arith in
    rw (e, b, c, d) (refl, refl, refl)

loop-more :
    (byte a m : ℕ) (rest : Str)
    → byte < 128
    → m ≤ 2097152
    → a + byte * m < 4294967296
    → remain_length_loop ((byte + 128) ∷ rest) a m
      ≡ remain_length_loop rest (a + byte * m) (m * 128)
unfolding remain_length_loop
loop-more byte a m rest byte< m≤ total< =
    let e : (byte + 128) % 128 ≡ byte = omega arith in
    let b : leb 128 (byte + 128) ≡ true = ground arith in
    let c : ltb 2097152 m ≡ false = ground arith in
    let d : (a + byte * m) % 4294967296 ≡ a + byte * m = omega arith in
    let g : m * 128 % 4294967296 ≡ m * 128 = omega arith in rw (e, b, c, d, g)

-- With room for one more byte, for two, three and four.
reads-1 :
    (n a : ℕ) (rest : Str)
    → n < 128
    → a < 2097152
    → ReadsAs (remain_length_loop (remain_bytes 2 n ++ rest) a 2097152) (a + n * 2097152) rest
unfolding remain_bytes
reads-1 n a rest n< a< =
    let e : ltb 0 (n / 128) ≡ false = ground arith in
    let d : n % 128 ≡ n = omega arith in
    rw (e, d) (loop-last n a 2097152 rest n< (omega arith) (omega arith))

reads-2 :
    (n a : ℕ) (rest : Str)
    → n < 16384
    → a < 16384
    → ReadsAs (remain_length_loop (remain_bytes 3 n ++ rest) a 16384) (a + n * 16384) rest
unfolding remain_bytes
reads-2 n a rest n< a< = elim (Bool-cases (ltb 0 (n / 128))) [
  | inl e ↦
      let go = reads-1 (n / 128) (a + n % 128 * 16384) rest (omega arith) (omega arith) in
      let total : a + n % 128 * 16384 + n / 128 * 2097152 ≡ a + n * 16384 = omega arith in
      rw e (
        rw
          (loop-more (n % 128) a 16384 (remain_bytes 2 (n / 128) ++ rest) (omega arith)
            (omega arith) (omega arith))
          (rw total at go))
  | inr e ↦
      let small : n < 128 = ground arith in
      let d : n % 128 ≡ n = omega arith in
      rw (e, d) (loop-last n a 16384 rest small (omega arith) (omega arith))
]

reads-3 :
    (n a : ℕ) (rest : Str)
    → n < 2097152
    → a < 128
    → ReadsAs (remain_length_loop (remain_bytes 4 n ++ rest) a 128) (a + n * 128) rest
unfolding remain_bytes
reads-3 n a rest n< a< = elim (Bool-cases (ltb 0 (n / 128))) [
  | inl e ↦
      let go = reads-2 (n / 128) (a + n % 128 * 128) rest (omega arith) (omega arith) in
      let total : a + n % 128 * 128 + n / 128 * 16384 ≡ a + n * 128 = omega arith in
      rw e (
        rw
          (loop-more (n % 128) a 128 (remain_bytes 3 (n / 128) ++ rest) (omega arith) (omega arith)
            (omega arith))
          (rw total at go))
  | inr e ↦
      let small : n < 128 = ground arith in
      let d : n % 128 ≡ n = omega arith in
      rw (e, d) (loop-last n a 128 rest small (omega arith) (omega arith))
]

reads-4 :
    (n a : ℕ) (rest : Str)
    → n < 268435456
    → a < 1
    → ReadsAs (remain_length_loop (remain_bytes 5 n ++ rest) a 1) (a + n * 1) rest
unfolding remain_bytes
reads-4 n a rest n< a< = elim (Bool-cases (ltb 0 (n / 128))) [
  | inl e ↦
      let go = reads-3 (n / 128) (a + n % 128 * 1) rest (omega arith) (omega arith) in
      let total : a + n % 128 * 1 + n / 128 * 128 ≡ a + n * 1 = omega arith in
      rw e (
        rw
          (loop-more (n % 128) a 1 (remain_bytes 4 (n / 128) ++ rest) (omega arith) (omega arith)
            (omega arith))
          (rw total at go))
  | inr e ↦
      let small : n < 128 = ground arith in
      let d : n % 128 ≡ n = omega arith in
      rw (e, d) (loop-last n a 1 rest small (omega arith) (omega arith))
]

-- A length below 128^4 that is followed by anything is read back, and what follows is left.
pub remain_length_loop-remain_bytes :
    (n : ℕ) (rest : Str)
    → n < 268435456
    → ReadsAs (remain_length_loop (remain_bytes 5 n ++ rest) 0 1) n rest
remain_length_loop-remain_bytes n rest n< =
    let e : 0 + n * 1 ≡ n = omega arith in rw e at (reads-4 n 0 rest n< (omega arith))

-- The loop goes on where it has stopped.
remain_length_loop-append :
    (xs ys : Str) (a m : ℕ)
    → (remain_length_loop xs a m).status ≡ need_more_data
    → remain_length_loop (xs ++ ys) a m
      ≡ remain_length_loop ys
          (remain_length_loop xs a m).remain_length
          (remain_length_loop xs a m).multiplier
unfolding remain_length_loop
remain_length_loop-append [] ys a m h = refl
remain_length_loop-append (x ∷ xs) ys a m h =
    ground (
      arith,
      remain_length_loop-append xs ys ((a + x % 128 * m) % 4294967296) (m * 128 % 4294967296),
    )

-- Where the loop has come to an end, it leaves what follows as it is.
loop-stopped :
    (xs zs : Str) (a m : ℕ)
    → (remain_length_loop xs a m).status ≢ need_more_data
    → (remain_length_loop (xs ++ zs) a m).rest ≡ (remain_length_loop xs a m).rest ++ zs
unfolding remain_length_loop
loop-stopped [] zs a m h = absurd (h refl)
loop-stopped (x ∷ xs) zs a m h = elim (Bool-cases (ltb 2097152 m)) [
  | inl e ↦ rw (e) refl
  | inr e ↦ elim (Bool-cases (leb 128 x)) [
    | inl f ↦
        rw (e, f)
          (loop-stopped xs zs ((a + x % 128 * m) % 4294967296) (m * 128 % 4294967296)
            (rw (e, f) at h))
    | inr f ↦ rw (e, f) refl
  ]
]

needs_more-cases : (s : DecodeStatus) → (s ≡ need_more_data) ⊎ (s ≢ need_more_data)
needs_more-cases need_more_data = inl refl
needs_more-cases s = inr (λ e. cc)

-- It asks for more only when it has read all.
loop-empty :
    (xs : Str) (a m : ℕ)
    → (remain_length_loop xs a m).status ≡ need_more_data
    → (remain_length_loop xs a m).rest ≡ []
unfolding remain_length_loop
loop-empty [] a m e = refl
loop-empty (x ∷ xs) a m e =
    ground (arith, loop-empty xs ((a + x % 128 * m) % 4294967296) (m * 128 % 4294967296))

-- Bytes that arrive go behind those in the buffer.
abbrev pub receive : Str → Conn → Conn
receive arrived c = record c { buffer = c.buffer ++ arrived }

-- A part of an encoded length asks for more.
loop-part :
    (n y : ℕ) (first ys : Str)
    → n < 268435456
    → remain_bytes 5 n ≡ first ++ y ∷ ys
    → (remain_length_loop first 0 1).status ≡ need_more_data
loop-part n y first ys n< parts = elim (needs_more-cases (remain_length_loop first 0 1).status) [
  | inl e ↦ e
  | inr ne ↦
      let whole = remain_length_loop-remain_bytes n [] n< in
      let bytes : remain_bytes 5 n ++ [] ≡ first ++ y ∷ ys =
        append-nil (remain_bytes 5 n) ∙ parts in
      let left : (remain_length_loop (first ++ y ∷ ys) 0 1).rest ≡ [] =
        ap (λ b. (remain_length_loop b 0 1).rest) (sym bytes) ∙ whole.2 in
      let same = ap length (sym (loop-stopped first (y ∷ ys) 0 1 ne) ∙ left) in
      let size = length-append (remain_length_loop first 0 1).rest (y ∷ ys) in absurd (omega arith)
]

-- The remaining length that make_fixed_header writes for a number below 128^4 arrives at a
-- connection that waits for it in two pieces, cut anywhere, neither of which is empty. Called on the
-- first piece, parse_remain_length asks for more data; called again on what it has left and the
-- second piece, it has read the number, and what follows the length is left in the buffer.
pub parse_remain_length-pieces :
    (n x y : ℕ) (xs ys rest : Str) (c : Conn)
    → n < 268435456
    → remain_bytes 5 n ≡ (x ∷ xs) ++ y ∷ ys
    → c.parsing_ctx.remain_length ≡ 0
    → c.parsing_ctx.multiplier ≡ 1
    → c.buffer ≡ x ∷ xs
    → ((parse_remain_length c).0 ≡ need_more_data)
      × ((parse_remain_length (receive ((y ∷ ys) ++ rest) (parse_remain_length c).1)).0 ≡ decode_ok)
      × ((parse_remain_length
            (receive ((y ∷ ys) ++ rest) (parse_remain_length c).1)).1.parsing_ctx.remain_length
          ≡ n)
      × ((parse_remain_length (receive ((y ∷ ys) ++ rest) (parse_remain_length c).1)).1.buffer
          ≡ rest)
unfolding parse_remain_length
parse_remain_length-pieces n x y xs ys rest c n< parts none_yet one_yet here =
    let more = loop-part n y (x ∷ xs) ys n< parts in
    let none_left = loop-empty (x ∷ xs) 0 1 more in
    let go = remain_length_loop-append (x ∷ xs) ((y ∷ ys) ++ rest) 0 1 more in
    let whole = remain_length_loop-remain_bytes n rest n< in
    let bytes : remain_bytes 5 n ++ rest ≡ (x ∷ xs) ++ ((y ∷ ys) ++ rest) =
      ap (λ b. b ++ rest) parts ∙ append_assoc (x ∷ xs) (y ∷ ys) rest in
    rw (none_yet, one_yet, here, none_left, ← go, ← bytes) (more, whole.0, whole.1, whole.2)
