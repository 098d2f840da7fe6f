-- ===== src/P9/Transfer/Bytes.antt =====
-- What a read and a write of a file do with the buffers of the request.
use kvmc.Prelude.{
  ℕ, zero, suc, ◌+◌, ◌-◌, ◌^◌, ◌<◌, ◌≡◌, refl, sym, ap, ◌∙◌, List, [], ◌∷◌, ◌++◌, some, arith,
  length, take, take-append, take-all, append-nil,
}
use native.Mathlib.Decide.{dec_lt}
use kvmc.P9.{failed, Host, P9, ok, pure, get_state, ask, modify, ◌>>=◌}
use kvmc.P9.Replies.{hdr_len}
use kvmc.P9.Transfer.{update_iov_cnt, iov_behind, iov_total, joined, read_count, read_file, filling}

take-none : (n : ℕ) (xs : List ℕ) → n ≡ 0 → take n xs ≡ []
take-none zero xs h = refl
take-none (suc n) xs h = absurd (omega arith)

-- From a total on, the buffers that are left hold the first bytes up to the count.
update_iov_cnt-from :
    (t count : ℕ) (iov : List (List ℕ))
    → joined (update_iov_cnt t count iov) ≡ take (count - t) (joined iov)
unfolding update_iov_cnt
update_iov_cnt-from t count [] = sym (take-all (count - t) [] (omega arith))
update_iov_cnt-from t count (v ∷ iov) = elim (dec_lt t count) [
  | no full ↦ ground (arith, take-none (count - t) (v ++ joined iov) (omega arith))
  | yes room ↦ elim (dec_lt count (t + length v)) [
    | yes cut ↦ ground (
      arith,
      take-append (count - t) v (joined iov),
      take-none (count - t - length v) (joined iov) (omega arith),
      append-nil (take (count - t) v),
    )
    | no whole ↦
        let left : count - t - length v ≡ count - (t + length v) = omega arith in
        ground (
          arith,
          take-append (count - t) v (joined iov),
          take-all (count - t) v (omega arith),
          left,
          update_iov_cnt-from (t + length v) count iov,
        )
  ]
]

-- The buffers that a request is limited to hold its first `count` bytes.
pub update_iov_cnt_lem :
    (count : ℕ) (iov : List (List ℕ))
    → joined (update_iov_cnt 0 count iov) ≡ take count (joined iov)
update_iov_cnt_lem count iov =
    update_iov_cnt-from 0 count iov
    ∙ ap (λ n. take n (joined iov)) {x = count - 0} {y = count} (omega arith)

module _ {H : Type 0} (os : Host H) where
  -- A read that the host refuses is answered as one that has filled the whole count.
  pub read_failed :
      (fd offset count e : ℕ) (used : List (List ℕ)) (s : P9 H)
      → iov_behind (hdr_len + 4) count s.pdu.in_iov ≡ some used
      → (os.preadv fd (iov_total used) offset s.host).0 ≡ failed e
      → count < 2 ^ 32
      → (read_file os fd offset count s).0 ≡ ok count
  unfolding read_file filling read_count get_state ask modify pure ◌>>=◌
  read_failed fd offset count e used s at refused word = ground (arith, at, refused)
