-- ===== src/Uip/Tests.antt =====
-- The theorems of the checksum and of the buffer pool at small inputs.
use kvmc.Prelude.{suc, ◌+◌, ◌<◌, ◌/◌, ◌%◌, ◌≡◌, refl, [], ◌∷◌}
use kvmc.Uip.{csum_words, csum_fold, free, inuse, used, Pool, uip_csum}
use kvmc.Uip.Checksum.{uip_csum_verifies}
use kvmc.Uip.Buffers.{count, IsCounted}

uip_csum_verifies_example :
    (csum_fold (suc (csum_words 0 (1 ∷ 2 ∷ []))) (csum_words 0 (1 ∷ 2 ∷ [])) / 65536 ≡ 0)
    × (uip_csum 0 (1 ∷ 2 ∷ []) < 65536)
    × ((uip_csum 0 (1 ∷ 2 ∷ []) + csum_words 0 (1 ∷ 2 ∷ [])) % 65535 ≡ 0)
    × (uip_csum 0 (uip_csum 0 (1 ∷ 2 ∷ []) % 256 ∷ uip_csum 0 (1 ∷ 2 ∷ []) / 256 ∷ 1 ∷ 2 ∷ []) ≡ 0)
uip_csum_verifies_example = uip_csum_verifies (1 ∷ 2 ∷ [])

abbrev pool : Pool
pool = record { bufs = inuse ∷ used ∷ free ∷ []; buf_used_nr = 1; buf_free_nr = 1 }

pool-IsCounted : IsCounted pool
unfolding count
pool-IsCounted = record { used_counted = refl; free_counted = refl }
