-- ===== src/Device/Heap.antt =====
-- library/src/reverse_offload/context_ro_device.cpp: the addresses and values that the calls hand on.
use roc_shmem.Common.{ℕ, ◌+◌, ◌^◌, ◌<◌, ◌≡◌, ◌↔◌, refl, true, false, arith}
use roc_shmem.Common.Int.{ℤ, pos, negsuc}
use roc_shmem.Transport.Request.{QueueElement}
use roc_shmem.Device.{Context, sends, remote, to_int, to_size, add64, shmem_ptr, amo_fetch_add}
use roc_shmem.Queue.{sub64}

-- Where the PE shares memory, `shmem_ptr` of the address o bytes into one's own heap is the
-- address o bytes into the heap of the PE, if both lie below 2^64.
pub shmem_ptr-offset :
    (c : Context) (o : ℕ) (pe : ℤ)
    → c.is_ipc_available pe ≡ true
    → c.ipc_bases c.my_pe + o < 2 ^ 64
    → c.ipc_bases pe + o < 2 ^ 64
    → shmem_ptr c (c.ipc_bases c.my_pe + o) pe ≡ c.ipc_bases pe + o
unfolding shmem_ptr remote
shmem_ptr-offset c o pe a h k = rw a (offset (c.ipc_bases c.my_pe) (c.ipc_bases pe) h k)
  where
    offset : (a b : ℕ) → a + o < 2 ^ 64 → b + o < 2 ^ 64 → add64 b (sub64 (a + o) a) ≡ b + o
    offset a b h k = omega (arith, h, k)

-- The integers of b bits and a sign, in two's complement.
pub data Fits (b : ℕ) : ℤ → Type 0 where
  at_least_zero : (n : ℕ) → n < 2 ^ b → Fits b (pos n)
  below_zero : (n : ℕ) → n < 2 ^ b → Fits b (negsuc n)

Fits-pos : {b n : ℕ} → Fits b (pos n) → n < 2 ^ b
Fits-pos (at_least_zero _ h) = h

Fits-negsuc : {b n : ℕ} → Fits b (negsuc n) → n < 2 ^ b
Fits-negsuc (below_zero _ h) = h

to_int-pos : (n : ℕ) → n < 2 ^ 63 → (to_int (to_size (pos n)) ≡ pos n) ↔ (n < 2 ^ 31)
to_int-pos n h = ground (arith, h)

to_int-negsuc : (n : ℕ) → n < 2 ^ 63 → (to_int (to_size (negsuc n)) ≡ negsuc n) ↔ (n < 2 ^ 31)
to_int-negsuc n h = ground (arith, h)

to_int_iff : (v : ℤ) → Fits 63 v → (to_int (to_size v) ≡ v) ↔ Fits 31 v
to_int_iff _ (at_least_zero n h) =
    let (to, from) = to_int-pos n h in (λ e. at_least_zero n (to e), λ f. from (Fits-pos f))
to_int_iff _ (below_zero n h) =
    let (to, from) = to_int-negsuc n h in (λ e. below_zero n (to e), λ f. from (Fits-negsuc f))

-- Where the PE shares no memory, an atomic addition of an `int64_t` sends a command that the
-- thread waits for, and the command carries the value just where the value is from -2^31 to 2^31
-- - 1.
pub amo_fetch_add-value :
    (c : Context) (dst : ℕ) (value pe : ℤ)
    → c.is_ipc_available pe ≡ false
    → Fits 63 value
    → (q : QueueElement) × (amo_fetch_add c dst value pe ≡ sends q true)
      × ((q.size ≡ value) ↔ Fits 31 value)
unfolding amo_fetch_add
amo_fetch_add-value c dst value pe a h = rw a (_, refl, to_int_iff value h)
