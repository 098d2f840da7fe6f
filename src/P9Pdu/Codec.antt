-- ===== src/P9Pdu/Codec.antt =====
-- What is encoded into a pdu's buffers is what is decoded out of them.
use kvmc.Prelude.{
  ℕ, zero, suc, ◌+◌, ◌-◌, ◌/◌, ◌%◌, ◌^◌, ◌≤◌, ◌<◌, ◌≡◌, refl, sym, ap, ◌∙◌, List, [], ◌∷◌, ◌++◌,
  Bool, true, some, arith, length, take, drop, length-append, append_assoc, if◌then◌else◌, All,
}
use mathlib.Core.List.{map}
use kvmc.P9Pdu.{
  Pdu, pdu_read, pdu_write, splice, Arg, byte, word, dword, qword, string, le_bytes, from_le, sent,
  put_arg, encode, Format, is_byte, is_word, is_dword, is_qword, is_string, Value, num, str,
  overlay, get_int, got, get, get_str, decode,
}
use kvmc.Prelude.{◌↔◌, ◌==◌}
use kvmc.P9Pdu.{Wstat, wstat_args, wstat_formats, fault}
use kvmc.P9Pdu.Buffers.{
  splice-nil, content, pdu_read_lem, pdu_write_lem, length-splice, splice-append, drop-splice,
  drop-drop,
}

-- The bytes of a value on the wire.
abbrev pub wire : Arg → List ℕ
wire (byte n) = le_bytes 1 n
wire (word n) = le_bytes 2 n
wire (dword n) = le_bytes 4 n
wire (qword n) = le_bytes 8 n
wire (string t) = le_bytes 2 (length (sent t)) ++ sent t

abbrev pub wires : List Arg → List ℕ
wires [] = []
wires (a ∷ args) = wire a ++ wires args

-- The format that asks for a value, and the value that it is to give.
abbrev pub format_of : Arg → Format
format_of (byte n) = is_byte
format_of (word n) = is_word
format_of (dword n) = is_dword
format_of (qword n) = is_qword
format_of (string t) = is_string

abbrev pub value_of : Arg → Value
value_of (byte n) = num (n % 2 ^ 8)
value_of (word n) = num (n % 2 ^ 16)
value_of (dword n) = num (n % 2 ^ 32)
value_of (qword n) = num (n % 2 ^ 64)
value_of (string t) = str (some (sent t))

-- A write of bytes that fit.
write_fits :
    (d : List ℕ) (p : Pdu)
    → p.write_offset + length d ≤ length (content p.in_iov)
    → (content (pdu_write d p).in_iov ≡ splice p.write_offset d (content p.in_iov))
      × ((pdu_write d p).write_offset ≡ p.write_offset + length d)
write_fits d p h = let (bytes, copied) = pdu_write_lem d p in (bytes, omega (arith, copied))

write_twice :
    (d e : List ℕ) (p : Pdu)
    → p.write_offset + length (d ++ e) ≤ length (content p.in_iov)
    → (content (pdu_write e (pdu_write d p)).in_iov
        ≡ splice p.write_offset (d ++ e) (content p.in_iov))
      × ((pdu_write e (pdu_write d p)).write_offset ≡ p.write_offset + length (d ++ e))
write_twice d e p h =
    let len = length-append d e in
    let (bytes, at) = write_fits d p (omega (arith, len)) in
    let size : length (content (pdu_write d p).in_iov) ≡ length (content p.in_iov) =
      ap length bytes ∙ length-splice p.write_offset d (content p.in_iov) in
    let (bytes', at') = write_fits e (pdu_write d p) (omega (arith, len, at, size)) in
    (
      ground (arith, bytes, at, bytes', splice-append p.write_offset d e (content p.in_iov)),
      omega (arith, at, at', len),
    )

put_arg_lem :
    (a : Arg) (p : Pdu)
    → p.write_offset + length (wire a) ≤ length (content p.in_iov)
    → (content (put_arg a p).in_iov ≡ splice p.write_offset (wire a) (content p.in_iov))
      × ((put_arg a p).write_offset ≡ p.write_offset + length (wire a))
unfolding put_arg
put_arg_lem (byte n) p h = write_fits (le_bytes 1 n) p h
put_arg_lem (word n) p h = write_fits (le_bytes 2 n) p h
put_arg_lem (dword n) p h = write_fits (le_bytes 4 n) p h
put_arg_lem (qword n) p h = write_fits (le_bytes 8 n) p h
put_arg_lem (string t) p h = write_twice (le_bytes 2 (length (sent t))) (sent t) p h

pub encode_lem :
    (args : List Arg) (p : Pdu)
    → p.write_offset + length (wires args) ≤ length (content p.in_iov)
    → (content (encode args p).in_iov ≡ splice p.write_offset (wires args) (content p.in_iov))
      × ((encode args p).write_offset ≡ p.write_offset + length (wires args))
unfolding encode
encode_lem [] p h = (sym (splice-nil p.write_offset (content p.in_iov)), omega arith)
encode_lem (a ∷ args) p h =
    let len = length-append (wire a) (wires args) in
    let (bytes, at) = put_arg_lem a p (omega (arith, len)) in
    let size : length (content (put_arg a p).in_iov) ≡ length (content p.in_iov) =
      ap length bytes ∙ length-splice p.write_offset (wire a) (content p.in_iov) in
    let (bytes', at') = encode_lem args (put_arg a p) (omega (arith, len, at, size)) in
    (
      ground (
        arith,
        bytes,
        at,
        bytes',
        splice-append p.write_offset (wire a) (wires args) (content p.in_iov),
      ),
      omega (arith, at, at', len),
    )

put_arg-out_iov : (a : Arg) (p : Pdu) → (put_arg a p).out_iov ≡ p.out_iov
unfolding put_arg pdu_write
put_arg-out_iov (byte n) p = refl
put_arg-out_iov (word n) p = refl
put_arg-out_iov (dword n) p = refl
put_arg-out_iov (qword n) p = refl
put_arg-out_iov (string t) p = refl

-- Writing a reply leaves the request.
pub encode-out_iov : (args : List Arg) (p : Pdu) → (encode args p).out_iov ≡ p.out_iov
unfolding encode
encode-out_iov [] p = refl
encode-out_iov (a ∷ args) p = encode-out_iov args (put_arg a p) ∙ put_arg-out_iov a p

-- The unread bytes of a pdu.
abbrev pub unread : Pdu → List ℕ
unread p = drop p.read_offset (content p.out_iov)

take_front : (xs ys : List ℕ) → take (length xs) (xs ++ ys) ≡ xs
take_front [] ys = refl
take_front (x ∷ xs) ys = ap (λ z. x ∷ z) (take_front xs ys)

drop_front : (xs ys : List ℕ) → drop (length xs) (xs ++ ys) ≡ ys
drop_front [] ys = refl
drop_front (x ∷ xs) ys = drop_front xs ys

-- The pdu behind `n` more bytes.
abbrev pub behind : ℕ → Pdu → Pdu
behind n p = record p { read_offset = p.read_offset + n }

read_front :
    (k : ℕ) (xs rest : List ℕ) (p : Pdu)
    → length xs ≡ k
    → unread p ≡ xs ++ rest
    → pdu_read k p ≡ (xs, behind k p)
read_front k xs rest p len e =
    let copied : take k (unread p) ≡ xs =
      rw e (ap (λ n. take n (xs ++ rest)) {x = k} {y = length xs} (sym len) ∙ take_front xs rest) in
    pdu_read_lem k p ∙ rw copied (ap (λ n. (xs, behind n p)) len)

unread-behind :
    (k : ℕ) (xs rest : List ℕ) (p : Pdu)
    → length xs ≡ k
    → unread p ≡ xs ++ rest
    → unread (behind k p) ≡ rest
unread-behind k xs rest p len e =
    drop-drop p.read_offset k (content p.out_iov)
    ∙ ap (drop k) e
    ∙ ap (λ n. drop n (xs ++ rest)) {x = k} {y = length xs} (sym len)
    ∙ drop_front xs rest

length-le_bytes : (k n : ℕ) → length (le_bytes k n) ≡ k
length-le_bytes zero n = refl
length-le_bytes (suc k) n = ap suc (length-le_bytes k (n / 256))

get_int_lem :
    (junk : List ℕ) (k n : ℕ) (rest : List ℕ) (p : Pdu)
    → unread p ≡ le_bytes k n ++ rest
    → get_int junk k p ≡ (from_le (le_bytes k n), behind k p)
unfolding get_int
get_int_lem junk k n rest p e =
    let xs = le_bytes k n in
    let len = length-le_bytes k n in
    let kept : take k (overlay xs junk) ≡ xs =
      ap (λ m. take m (overlay xs junk)) {x = k} {y = length xs} (sym len)
      ∙ take_front xs (drop (length xs) junk) in
    rw (read_front k xs rest p len e, kept)

-- A number is read whatever memory is left.
module _ (malloc : ℕ → Bool) (junk : List ℕ) (n : ℕ) (rest : List ℕ) (p : Pdu) where
  pub get-byte :
      unread p ≡ wire (byte n) ++ rest
      → get malloc junk is_byte p ≡ got (num (n % 256)) (behind 1 p)
  unfolding get
  get-byte e = rw (get_int_lem junk 1 n rest p e) (ap (λ m. got (num m) (behind 1 p)) (omega arith))

  pub get-word :
      unread p ≡ wire (word n) ++ rest
      → get malloc junk is_word p ≡ got (num (n % 65536)) (behind 2 p)
  unfolding get
  get-word e = rw (get_int_lem junk 2 n rest p e) (ap (λ m. got (num m) (behind 2 p)) (omega arith))

-- A string of at most 32767 bytes.
abbrev pub IsShort : Arg → Type 0
IsShort (string t) = length (sent t) < 32768
IsShort (byte n) = Unit
IsShort (word n) = Unit
IsShort (dword n) = Unit
IsShort (qword n) = Unit

module _ (malloc : ℕ → Bool) (junk : List ℕ) (memory : (n : ℕ) → n ≤ 32768 → malloc n ≡ true) where
  get_str_lem :
      (text rest : List ℕ) (p : Pdu)
      → length text < 32768
      → unread p ≡ text ++ rest
      → get_str malloc junk (length text, p) ≡ got (str (some text)) (behind (length text) p)
  unfolding get_str
  get_str_lem text rest p h e =
      let read = read_front (length text) text rest p refl e in
      let kept = take_front text (drop (length text) junk) in
      ground (arith, memory (length text + 1), read, kept)

  get_lem :
      (a : Arg) (rest : List ℕ) (p : Pdu)
      → IsShort a
      → unread p ≡ wire a ++ rest
      → get malloc junk (format_of a) p ≡ got (value_of a) (behind (length (wire a)) p)
  unfolding get
  get_lem (byte n) rest p h e = get-byte malloc junk n rest p e
  get_lem (word n) rest p h e = get-word malloc junk n rest p e
  get_lem (dword n) rest p h e =
      rw (get_int_lem junk 4 n rest p e) (ap (λ m. got (num m) (behind 4 p)) (omega arith))
  get_lem (qword n) rest p h e =
      rw (get_int_lem junk 8 n rest p e) (ap (λ m. got (num m) (behind 8 p)) (omega arith))
  get_lem (string t) rest p h e =
      let n = length (sent t) in
      let two : get_int junk 2 p ≡ (n, behind 2 p) =
        get_int_lem junk 2 n (sent t ++ rest) p e
        ∙ ap (λ m. (m, behind 2 p)) {x = from_le (le_bytes 2 n)} {y = n} (omega arith) in
      let left = unread-behind 2 (le_bytes 2 n) (sent t ++ rest) p refl e in
      rw two (
        get_str_lem (sent t) rest (behind 2 p) h left
        ∙ ap (λ o. got (str (some (sent t))) (record p { read_offset = o }))
            {x = p.read_offset + 2 + n} {y = p.read_offset + suc (suc n)} (omega arith))

  -- Values that stand at a pdu's read offset are decoded, and the pdu goes on behind them.
  pub decode_lem :
      (args : List Arg) (rest : List ℕ) (retval : ℕ) (p : Pdu)
      → All IsShort args
      → unread p ≡ wires args ++ rest
      → decode malloc junk (map format_of args) retval p
        ≡ some (map value_of args, retval, behind (length (wires args)) p)
  unfolding decode
  decode_lem [] rest retval p h e =
      ap (λ o. some ([], retval, record p { read_offset = o })) {y = p.read_offset + 0}
        (omega arith)
  decode_lem (a ∷ args) rest retval p h e =
      let e' = e ∙ append_assoc (wire a) (wires args) rest in
      let first = get_lem a (wires args ++ rest) p h.0 e' in
      let left = unread-behind (length (wire a)) (wire a) (wires args ++ rest) p refl e' in
      let others = decode_lem args rest retval (behind (length (wire a)) p) h.1 left in
      let len : p.read_offset + length (wire a) + length (wires args)
          ≡ p.read_offset + length (wires (a ∷ args)) =
        omega (arith, length-append (wire a) (wires args)) in
      rw (first, decode, others, len)

  -- Round trip: what the encoder has put into buffers that have room for it, the decoder answers of
  -- a pdu that reads the same bytes from the same offset on, each number within the bits of its
  -- format, if every string has at most 32767 bytes and memory is given for it.
  pub decode-encode :
      (args : List Arg) (p r : Pdu)
      → All IsShort args
      → p.write_offset + length (wires args) ≤ length (content p.in_iov)
      → content r.out_iov ≡ content (encode args p).in_iov
      → r.read_offset ≡ p.write_offset
      → decode malloc junk (map format_of args) 0 r
        ≡ some (map value_of args, 0, record r { read_offset = (encode args p).write_offset })
  decode-encode args p r h room same at =
      let (bytes, end) = encode_lem args p room in
      let c = content p.in_iov in
      let e : unread r ≡ wires args ++ drop (p.write_offset + length (wires args)) c =
        rw (same, at, bytes) (drop-splice p.write_offset (wires args) c room) in
      rw (decode_lem args (drop (p.write_offset + length (wires args)) c) 0 r h e, end, at)

-- The decoder's formats for a `struct p9_wstat` are those of the encoder.
wstat_formats_lem : (x : Wstat) → map format_of (wstat_args x) ≡ wstat_formats
wstat_formats_lem x = refl

-- A string whose length on the wire is 32768 or more is taken for one of negative length: decoding it
-- writes outside the memory that was allocated for it exactly if `malloc` gives memory for the
-- wrapped size, which is 0 for a length of 65535.
get-fault :
    (malloc : ℕ → Bool) (junk : List ℕ) (len : ℕ) (rest : List ℕ) (p : Pdu)
    → unread p ≡ le_bytes 2 len ++ rest
    → 32768 ≤ len
    → len < 65536
    → (get malloc junk is_string p ≡ fault)
      ↔ (malloc (if len == 65535 then 0 else len + (2 ^ 64 - 65535)) ≡ true)
unfolding get get_str
get-fault malloc junk len rest p e low high =
    let two : get_int junk 2 p ≡ (len, behind 2 p) =
      get_int_lem junk 2 len rest p e
      ∙ ap (λ m. (m, behind 2 p)) {x = from_le (le_bytes 2 len)} {y = len} (omega arith) in
    let size : (len + 2 ^ 64 - 65535) % 2 ^ 64
        ≡ (if len == 65535 then 0 else len + (2 ^ 64 - 65535)) =
      ground arith in
    (λ f. ground (arith, two, size, f), λ m. ground (arith, two, size, m))
