-- ===== src/Memory/AddressRecord/Laws.antt =====
-- library/src/memory/address_record.hpp: combining undoes splitting.
use roc_shmem.Common.{◌+◌, ◌%◌, ◌<◌, ◌≡◌, some, arith, Returns}
use roc_shmem.Memory.AddressRecord.{AddressRecord, word_mod, split, combine}

-- The halves of a record of even positive size, that does not begin at null and ends below 2^64,
-- combine to the record in either order.
pub combine-split :
    (r : AddressRecord)
    → 0 < r.address
    → 0 < r.size
    → r.size % 2 ≡ 0
    → r.address + r.size < word_mod
    → Returns (λ h. (combine h.0 h.1 ≡ some r) × (combine h.1 h.0 ≡ some r)) (split r)
unfolding split combine
combine-split r pos sized even fits = ground arith
