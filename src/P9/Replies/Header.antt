-- ===== src/P9/Replies/Header.antt =====
-- The header of a reply.
use kvmc.Prelude.{
  ℕ, ◌+◌, ◌%◌, ◌^◌, ◌≤◌, ◌≡◌, refl, ap, ◌∙◌, List, [], ◌∷◌, ◌++◌, arith, length, drop,
}
use kvmc.P9Pdu.{Pdu, Arg, byte, word, dword, encode, is_byte, is_word, splice}
use kvmc.P9Pdu.Buffers.{content}
use kvmc.P9Pdu.Codec.{wire, wires, unread, behind, get-byte, get-word, encode_lem}
use kvmc.P9.{Host, P9, ok, pure, get_state, modify, ◌>>=◌}
use kvmc.P9.Replies.{
  hdr_len, readf, read_num, writef, seek_read, seek_write, current_offset,
  virtio_p9_set_reply_header, send_reply, reported,
}

-- A request with a size, a message type and a tag in its header.
abbrev pub Request : Pdu → ℕ → ℕ → ℕ → List ℕ → Type 0
Request p size cmd tag rest =
    content p.out_iov ≡ wires (dword size ∷ byte cmd ∷ word tag ∷ []) ++ rest

module _ {H : Type 0} (os : Host H) where
  read_byte-at :
      (s : P9 H) (n : ℕ) (rest : List ℕ)
      → unread s.pdu ≡ wire (byte n) ++ rest
      → read_num os is_byte s ≡ (ok (n % 256), record s { pdu = behind 1 s.pdu })
  unfolding read_num readf pure ◌>>=◌
  read_byte-at s n rest e = rw (get-byte (os.malloc s.host) os.junk n rest s.pdu e) refl

  read_word-at :
      (s : P9 H) (n : ℕ) (rest : List ℕ)
      → unread s.pdu ≡ wire (word n) ++ rest
      → read_num os is_word s ≡ (ok (n % 65536), record s { pdu = behind 2 s.pdu })
  unfolding read_num readf pure ◌>>=◌
  read_word-at s n rest e = rw (get-word (os.malloc s.host) os.junk n rest s.pdu e) refl

  -- A pdu whose header is about to be read from an offset.
  abbrev at_offset : P9 H → ℕ → P9 H
  at_offset s k = record s { pdu = record s.pdu { read_offset = k } }

  abbrev headed : P9 H → List Arg → P9 H
  headed s args = record s {
    pdu = encode args (record s.pdu { read_offset = 7; write_offset = 0 });
  }

  set_reply_header-at :
      (s : P9 H) (outlen size cmd tag : ℕ) (rest : List ℕ)
      → Request s.pdu size cmd tag rest
      → virtio_p9_set_reply_header os outlen s
        ≡ (ok tt, headed s (dword outlen ∷ byte (cmd % 256 + 1) ∷ word (tag % 65536) ∷ []))
  unfolding virtio_p9_set_reply_header seek_read seek_write writef modify ◌>>=◌
  set_reply_header-at s outlen size cmd tag rest e =
      let first = read_byte-at (at_offset s 4) cmd (wire (word tag) ++ rest) (ap (drop 4) e) in
      let second = read_word-at (at_offset s 5) tag rest (ap (drop 5) e) in
      rw first (rw second refl)

  header_at_start :
      (args : List Arg) (p : Pdu)
      → p.write_offset ≡ 0
      → length (wires args) ≤ length (content p.in_iov)
      → content (encode args p).in_iov ≡ splice 0 (wires args) (content p.in_iov)
  header_at_start args p e h =
      (encode_lem args p (omega (arith, e))).0
      ∙ ap (λ o. splice o (wires args) (content p.in_iov)) e

  -- A reply's header has the length of the reply, the message type after that of the request, and the
  -- tag of the request, where the guest gives room for a header; the rest of the reply is as it was.
  pub reply_lem :
      (s : P9 H) (size cmd tag : ℕ) (rest : List ℕ)
      → Request s.pdu size cmd tag rest
      → 7 ≤ length (content s.pdu.in_iov)
      → let outlen = s.pdu.write_offset % 2 ^ 32 in
        (s' : P9 H) × (send_reply os s ≡ (ok outlen, s'))
        × (content s'.pdu.in_iov
            ≡ splice 0
                (wires (dword outlen ∷ byte (cmd % 256 + 1) ∷ word (tag % 65536) ∷ []))
                (content s.pdu.in_iov))
        × (s'.host ≡ s.host)
  unfolding send_reply current_offset get_state pure ◌>>=◌
  reply_lem s size cmd tag rest e room =
      let outlen = s.pdu.write_offset % 2 ^ 32 in
      let args : List Arg = dword outlen ∷ byte (cmd % 256 + 1) ∷ word (tag % 65536) ∷ [] in
      let at = set_reply_header-at s outlen size cmd tag rest e in
      (
        headed s args,
        rw at refl,
        header_at_start args (record s.pdu { read_offset = 7; write_offset = 0 }) refl room,
        refl,
      )

  -- The body of an error reply.
  abbrev failed_pdu : P9 H → ℕ → Pdu
  failed_pdu s error =
      encode (dword (reported error) ∷ []) (record s.pdu { write_offset = hdr_len })
