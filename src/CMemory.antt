-- ===== src/CMemory.antt =====
-- The C memory and the C library functions that the exercises share: char arrays as lists of
-- bytes, memcpy, strncmp, NUL-terminated strings, and 32-bit words on a little-endian host.
pub mod Copy
pub mod Strings
pub mod Words
pub mod Lines
use sysops.Common.{
  ℕ, zero, suc, ◌+◌, ◌*◌, ◌/◌, ◌%◌, ◌^◌, Bool, true, false, if◌then◌else◌, ◌==◌, List, [], ◌∷◌,
  ◌++◌,
}
use Prim.Native.Char.{code as char_code}
use Prim.Native.String
use Prim.Native.String.{String}

-- The bytes of an ASCII literal.
abbrev pub bytes : String → List ℕ
bytes String.[] = []
bytes (String.◌∷◌ c s) = char_code c ∷ bytes s

-- `memcpy(buf + offset, bytes, length bytes)`. A write past the end of the list changes nothing.
unfoldable pub write_at : List ℕ → ℕ → List ℕ → List ℕ
write_at [] offset bytes = []
write_at (b ∷ buf) (suc offset) bytes = b ∷ write_at buf offset bytes
write_at (b ∷ buf) zero [] = b ∷ buf
write_at (b ∷ buf) zero (x ∷ bytes) = x ∷ write_at buf zero bytes

-- `memcpy(dst, buf + offset, n)`, for the destination: the `n` bytes from `offset` on.
unfoldable pub read_at : List ℕ → ℕ → ℕ → List ℕ
read_at buf offset zero = []
read_at [] offset (suc n) = []
read_at (b ∷ buf) zero (suc n) = b ∷ read_at buf zero n
read_at (b ∷ buf) (suc offset) (suc n) = read_at buf offset (suc n)

-- The string that starts at a pointer: its bytes before the first NUL, `n` at most. Memory that
-- the list does not hold reads as NUL.
unfoldable pub c_string : ℕ → List ℕ → List ℕ
c_string zero s = []
c_string (suc n) [] = []
c_string (suc n) (x ∷ s) = if x == 0 then [] else x ∷ c_string n s

-- `strncmp(s, t, n) == 0`
unfoldable pub str_eq : ℕ → List ℕ → List ℕ → Bool
str_eq zero s t = true
str_eq (suc n) [] [] = true
str_eq (suc n) [] (y ∷ t) = y == 0
str_eq (suc n) (x ∷ s) [] = x == 0
str_eq (suc n) (x ∷ s) (y ∷ t) = if x == y then (if x == 0 then true else str_eq n s t) else false

-- The `k` bytes of a word in memory, least significant first.
unfoldable pub le_bytes : ℕ → ℕ → List ℕ
le_bytes zero x = []
le_bytes (suc k) x = (x % 256) ∷ le_bytes k (x / 256)

-- The word that bytes in memory stand for, least significant first.
unfoldable pub of_le_bytes : List ℕ → ℕ
of_le_bytes [] = 0
of_le_bytes (b ∷ bytes) = b + 256 * of_le_bytes bytes

-- `htonl` and `ntohl` on a little-endian host: the four bytes of a uint32_t in reverse order.
unfoldable pub htonl : ℕ → ℕ
htonl x = x / 2 ^ 24 % 256 + x / 2 ^ 16 % 256 * 2 ^ 8 + x / 2 ^ 8 % 256 * 2 ^ 16 + x % 256 * 2 ^ 24

abbrev pub ntohl : ℕ → ℕ
ntohl = htonl

-- The bytes that a string literal points at: its text, the NUL, and whatever lies behind it.
abbrev pub literal : List ℕ → List ℕ → List ℕ
literal beyond text = text ++ (0 ∷ beyond)
