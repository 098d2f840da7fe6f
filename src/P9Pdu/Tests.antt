-- ===== src/P9Pdu/Tests.antt =====
-- The theorems of the 9p codec at small messages.
use kvmc.Prelude.{◌≡◌, refl, List, [], ◌∷◌, true, some, arith}
use kvmc.P9Pdu.{
  Pdu, pdu_write, Arg, byte, string, encode, is_byte, is_string, num, str, decode, scatter, put_arg,
}
use kvmc.P9Pdu.Codec.{decode-encode}

-- Two buffers of three and of four bytes.
abbrev reply : Pdu
reply = record {
  read_offset = 0;
  write_offset = 1;
  out_iov = [];
  in_iov = (9 ∷ 9 ∷ 9 ∷ []) ∷ (9 ∷ 9 ∷ 9 ∷ 9 ∷ []) ∷ [];
}

-- The same bytes in one buffer, to be read.
abbrev request : Pdu
request = record {
  read_offset = 1;
  write_offset = 0;
  out_iov = (9 ∷ 7 ∷ 2 ∷ 0 ∷ 0x68 ∷ 0x69 ∷ 9 ∷ []) ∷ [];
  in_iov = [];
}

abbrev message : List Arg
message = byte 7 ∷ string (some (0x68 ∷ 0x69 ∷ [])) ∷ []

decode-encode_example :
    decode (λ n. true) [] (is_byte ∷ is_string ∷ []) 0 request
    ≡ some (
      num 7 ∷ str (some (0x68 ∷ 0x69 ∷ [])) ∷ [],
      0,
      record request { read_offset = (encode message reply).write_offset },
    )
unfolding encode put_arg pdu_write scatter
decode-encode_example =
    decode-encode (λ n. true) [] (λ n h. refl) message reply request (tt, (omega arith, tt))
      (omega arith) refl refl
