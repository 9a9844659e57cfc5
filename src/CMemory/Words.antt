-- ===== src/CMemory/Words.antt =====
-- Words in memory and in network order.
use sysops.Common.{ℕ, zero, suc, ◌/◌, ◌^◌, ◌<◌, ◌≡◌, refl, ap, arith, length}
use sysops.CMemory.{le_bytes, of_le_bytes, htonl}

pub length-le_bytes : (k x : ℕ) → length (le_bytes k x) ≡ k
unfolding le_bytes
length-le_bytes zero x = refl
length-le_bytes (suc k) x = ap suc (length-le_bytes k (x / 256))

pub of_le_bytes-le_bytes_4 : (x : ℕ) → x < 2 ^ 32 → of_le_bytes (le_bytes 4 x) ≡ x
unfolding le_bytes of_le_bytes
of_le_bytes-le_bytes_4 x h = omega arith

pub of_le_bytes-le_bytes_8 : (x : ℕ) → x < 2 ^ 32 → of_le_bytes (le_bytes 8 x) ≡ x
unfolding le_bytes of_le_bytes
of_le_bytes-le_bytes_8 x h = omega arith

pub htonl-lt : (x : ℕ) → htonl x < 2 ^ 32
unfolding htonl
htonl-lt x = omega arith

pub ntohl-htonl : (x : ℕ) → x < 2 ^ 32 → htonl (htonl x) ≡ x
unfolding htonl
ntohl-htonl x h = omega arith
