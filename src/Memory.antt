-- ===== src/Memory.antt =====
-- Bytes in memory, as xv6/*.c sees them: a buffer is a function from offsets to bytes, so `p + k` is
-- `shift k p`. `memmove`, `memset`, `strncmp` and `strncpy` are the C library's, by their
-- documented behaviour; 16- and 32-bit fields are little-endian.
pub mod Strings
pub mod Fields
pub mod Words
use fscq.Base.{
  ℕ, zero, suc, ◌+◌, ◌-◌, ◌*◌, ◌/◌, ◌%◌, ◌^◌, Bool, true, false, ◌&&◌, ◌||◌, ltb, leb, ◌==◌,
  if◌then◌else◌, List, [], ◌∷◌,
}

abbrev pub Bytes : Type 0
Bytes = ℕ → ℕ

abbrev pub zeroes : Bytes
zeroes _ = 0

-- `p + k` as a source of bytes.
abbrev pub shift : ℕ → Bytes → Bytes
shift k p i = p (k + i)

abbrev pub in_range : ℕ → ℕ → ℕ → Bool
in_range start n i = leb start i && ltb i (start + n)

-- `memmove(dst + at, src, n)`.
unfoldable pub memmove : Bytes → ℕ → Bytes → ℕ → Bytes
memmove dst at src n i = if in_range at n i then src (i - at) else dst i

-- `memset(dst + at, v, n)`.
unfoldable pub memset : Bytes → ℕ → ℕ → ℕ → Bytes
memset dst at v n i = if in_range at n i then v else dst i

-- `dst[at] = v`.
unfoldable pub set_byte : Bytes → ℕ → ℕ → Bytes
set_byte dst at v i = if i == at then v else dst i

unfoldable pub get16 : Bytes → ℕ → ℕ
get16 p at = p at + 256 * p (at + 1)

unfoldable pub get32 : Bytes → ℕ → ℕ
get32 p at = p at + 256 * p (at + 1) + 65536 * p (at + 2) + 16777216 * p (at + 3)

-- A store of a `short` or an `int` keeps the low 16 or 32 bits.
unfoldable pub put16 : Bytes → ℕ → ℕ → Bytes
put16 dst at v i = if i == at then v % 256 else if i == at + 1 then v / 256 % 256 else dst i

unfoldable pub put32 : Bytes → ℕ → ℕ → Bytes
put32 dst at v i =
    if i == at
    then v % 256
    else if i == at + 1
    then v / 256 % 256
    else if i == at + 2
    then v / 65536 % 256
    else if i == at + 3
    then v / 16777216 % 256
    else dst i

-- `n` consecutive words, copied out of a buffer over `old`, and into one.
unfoldable pub get_words : Bytes → ℕ → ℕ → (ℕ → ℕ) → ℕ → ℕ
get_words p at zero old = old
get_words p at (suc n) old =
    let rest = get_words p at n old in λ i. if i == n then get32 p (at + 4 * n) else rest i

unfoldable pub put_words : (ℕ → ℕ) → ℕ → ℕ → Bytes → Bytes
put_words words at zero p = p
put_words words at (suc n) p = put32 (put_words words at n p) (at + 4 * n) (words n)

-- Bit `k` of a byte: `x & (1 << k)`, `x | (1 << k)` and `x & ~(1 << k)`.
unfoldable pub test_bit : ℕ → ℕ → Bool
test_bit x k = x / 2 ^ k % 2 == 1

unfoldable pub set_bit : ℕ → ℕ → ℕ
unfolding test_bit
set_bit x k = if test_bit x k then x else x + 2 ^ k

unfoldable pub clear_bit : ℕ → ℕ → ℕ
unfolding test_bit
clear_bit x k = if test_bit x k then x - 2 ^ k else x

-- `strncmp(s, t, n) == 0`: equal up to a common NUL, or for `n` bytes.
unfoldable pub strncmp_eq : Bytes → Bytes → ℕ → ℕ → Bool
strncmp_eq s t i zero = true
strncmp_eq s t i (suc n) =
    let rest = strncmp_eq s t (i + 1) n in
    if s i == t i then (if s i == 0 then true else rest) else false

-- `strncpy(dst + at, src, n)`: up to the first NUL, then zeroes to the end.
unfoldable pub strncpy : Bytes → ℕ → Bytes → ℕ → ℕ → Bytes
strncpy dst at src i zero = dst
strncpy dst at src i (suc n) =
    let rest = strncpy (set_byte dst (at + i) (src i)) at src (i + 1) n in
    if src i == 0 then memset dst (at + i) 0 (suc n) else rest

-- The bytes of a C string: its characters, then NUL.
abbrev pub cstring : List ℕ → Bytes
cstring [] i = 0
cstring (c ∷ cs) zero = c
cstring (c ∷ cs) (suc i) = cstring cs i
