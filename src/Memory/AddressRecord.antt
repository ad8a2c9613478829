-- ===== src/Memory/AddressRecord.antt =====
-- library/src/memory/address_record.hpp: an address with the size of the memory behind it.
pub mod Laws
use roc_shmem.Common.{
  ℕ, ◌+◌, ◌/◌, ◌%◌, ◌^◌, not, Option, some, ltb, ◌==◌, if◌then◌else◌, assert, ◌>>◌,
}

-- `size_t` and `char *` have 64 bits.
abbrev pub word_mod : ℕ
word_mod = 2 ^ 64

-- The null pointer is address 0.
pub record AddressRecord : Type 0 where
  pub address : ℕ
  pub size : ℕ

abbrev pub invalid : AddressRecord
invalid = record { address = 0; size = 0 }

unfoldable pub split : AddressRecord → Option (AddressRecord × AddressRecord)
split r = do
  assert (not (r.address == 0))
  assert (not (r.size == 0))
  let half_size = r.size / 2
  assert (not (half_size == 0))
  let e1 : AddressRecord = record { address = r.address; size = half_size }
  let e2 : AddressRecord = record { address = (r.address + half_size) % word_mod; size = half_size }
  some (e1, e2)

unfoldable pub combine : AddressRecord → AddressRecord → Option AddressRecord
combine r other = do
  assert (not (r.address == 0))
  assert (not (other.address == 0))
  let this_smaller = ltb r.address other.address
  let smaller_addr = if this_smaller then r.address else other.address
  let larger_addr = if this_smaller then other.address else r.address
  assert (r.size == other.size)
  let combined_size = (r.size + r.size) % word_mod
  assert ((smaller_addr + r.size) % word_mod == larger_addr)
  some (record { address = smaller_addr; size = combined_size })
