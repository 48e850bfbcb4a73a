-- ===== src/Ikc/Numbers.antt =====
-- The request numbers of src/ikcd/ikcr.c, and the sequence numbers that `ikc_out_request_worker` of
-- src/ikcd/ikcd.c gives. An `unsigned char` is below 256, an `unsigned short int` below 65536, an
-- `unsigned int` below 2 ^ 32.
use dkmp.Base.{
  ℕ, zero, suc, ◌+◌, ◌*◌, ◌/◌, ◌%◌, ◌^◌, ◌<◌, ◌≡◌, ◌↔◌, refl, arith, ◌==◌, if◌then◌else◌, u16,
}

-- The address is what `ntohl` gives. The shifted address has its low 16 bits 0, so that `|` with
-- the id is `+`.
unfoldable pub pack_request_number : (addr request_id : ℕ) → ℕ
pack_request_number addr request_id = addr * 65536 % 2 ^ 32 + request_id

-- The shifted thread id has its low 10 bits 0, and `&` with 0x03ff is `% 1024`.
unfoldable pub pack_request_id : (thread_id seq_number : ℕ) → ℕ
pack_request_id thread_id seq_number = u16 (thread_id * 1024 + seq_number % 1024)

unfoldable pub unpack_req_id : ℕ → ℕ
unpack_req_id request_nbr = u16 request_nbr

unfoldable pub unpack_host_id : ℕ → ℕ
unpack_host_id request_nbr = u16 (request_nbr / 65536)

unfoldable pub unpack_thread_id : ℕ → ℕ
unpack_thread_id request_nbr = request_nbr / 1024 % 64

unfoldable pub unpack_seq_number : ℕ → ℕ
unpack_seq_number request_nbr = request_nbr % 1024

-- The counter of a worker before its next request.
unfoldable pub next_seq : ℕ → ℕ
next_seq seq_nbr = if seq_nbr == 1024 then 0 else u16 (seq_nbr + 1)

-- The counter after a number of requests; `seq_nbr = -1` is 65535 in an `unsigned short int`.
unfoldable pub seq_after : ℕ → ℕ
unfolding next_seq
seq_after zero = 65535
seq_after (suc n) = next_seq (seq_after n)

pub id_fits : (thread seq : ℕ) → pack_request_id thread seq < 65536
unfolding pack_request_id
id_fits thread seq = omega arith

-- Every part that went into a request number is unpacked from it again: the low 16 bits of the
-- address, the thread id if it is below 64, the sequence number modulo 1024, and the request id.
pub unpack-pack_number :
    (addr thread seq : ℕ)
    → thread < 64
    → let nbr = pack_request_number addr (pack_request_id thread seq) in
      (unpack_host_id nbr ≡ addr % 65536)
      × (unpack_thread_id nbr ≡ thread)
      × (unpack_seq_number nbr ≡ seq % 1024)
      × (unpack_req_id nbr ≡ pack_request_id thread seq)
      × (nbr < 2 ^ 32)
unfolding pack_request_number pack_request_id unpack_host_id unpack_thread_id unpack_seq_number
    unpack_req_id
unpack-pack_number addr thread seq h =
    (omega arith, omega arith, omega arith, omega arith, omega arith)

-- Two requests have one number exactly if their addresses agree in the low 16 bits, their threads
-- are the same and their sequence numbers agree modulo 1024, for thread ids below 64.
pub number-eq_iff :
    (a t s a' t' s' : ℕ)
    → t < 64
    → t' < 64
    → (pack_request_number a (pack_request_id t s) ≡ pack_request_number a' (pack_request_id t' s'))
      ↔ ((a % 65536 ≡ a' % 65536) × (t ≡ t') × (s % 1024 ≡ s' % 1024))
unfolding pack_request_number pack_request_id
number-eq_iff a t s a' t' s' h h' = (λ e. (omega arith, omega arith, omega arith), λ e. omega arith)

-- The counter runs through 0 to 1024, both included.
pub seq_after-mod : (n : ℕ) → seq_after (suc n) ≡ n % 1025
unfolding seq_after
seq_after-mod zero = refl
seq_after-mod (suc n) = ground (arith, seq_after-mod n)

-- A worker whose thread id is below 64 gives two successive requests one request id exactly where
-- its counter is at 1024, which is every 1025th request: there a new request cannot be told from a
-- repeated one.
pub id-repeats_iff :
    (thread n : ℕ)
    → thread < 64
    → (pack_request_id thread (seq_after (suc n))
        ≡ pack_request_id thread (seq_after (suc (suc n))))
      ↔ (n % 1025 ≡ 1024)
unfolding pack_request_id
id-repeats_iff thread n h = (
  λ e. omega (arith, seq_after-mod n, seq_after-mod (suc n)),
  λ e. omega (arith, seq_after-mod n, seq_after-mod (suc n)),
)
