-- ===== src/Memory.antt =====
-- Buffers as lists of bytes, pointers into them as offsets, and the macros ENCODE_UINT32 and
-- DECODE_UINT32 of oqsprov/oqs_prov.h.
pub mod Laws
use oqs_provider.Base.{
  ℕ, ◌+◌, ◌-◌, ◌*◌, ◌/◌, ◌%◌, ◌^◌, Bool, true, false, Option, none, some, List, [], ◌∷◌, ◌++◌,
  length, take, drop, ltb, leb, if◌then◌else◌,
}
use oqs_provider.Run.{Run, ok, ub}

abbrev pub Bytes : Type 0
Bytes = List ℕ

-- `p == NULL`
abbrev pub is_null {ℓ} : {A : Type ℓ} → Option A → Bool
is_null none = true
is_null (some a) = false

abbrev pub size_of_uint32 : ℕ
size_of_uint32 = 4

-- `n` bytes at `off`, as a callee that is handed the pointer and the length reads them.
unfoldable pub read : Bytes → ℕ → ℕ → Run Bytes
read buf off n = if leb (off + n) (length buf) then ok (take n (drop off buf)) else ub

-- `memcpy(buf + off, bs, length bs)`
unfoldable pub write : Bytes → ℕ → Bytes → Run Bytes
write buf off bs =
    if leb (off + length bs) (length buf)
    then ok (take off buf ++ (bs ++ drop (off + length bs) buf))
    else ub

-- The low 32 bits of `i`, most significant byte first.
unfoldable pub encode_uint32 : ℕ → Bytes
encode_uint32 i =
    (i / 2 ^ 24 % 2 ^ 8) ∷ (i / 2 ^ 16 % 2 ^ 8) ∷ (i / 2 ^ 8 % 2 ^ 8) ∷ (i % 2 ^ 8) ∷ []

-- The four bytes at the start of a buffer. The shifted bytes have no bit in common, so `|=` adds.
unfoldable pub decode_uint32 : Bytes → Run ℕ
decode_uint32 (a ∷ b ∷ c ∷ d ∷ _) = ok (a * 2 ^ 24 + b * 2 ^ 16 + c * 2 ^ 8 + d)
decode_uint32 _ = ub

-- A `uint32_t` that is stored in an `int` and then converted to `size_t`: the sign is extended.
unfoldable pub int_to_size : ℕ → ℕ
int_to_size w = if ltb w (2 ^ 31) then w else w + (2 ^ 64 - 2 ^ 32)

-- A pointer of a component array: null, at an offset of the key's buffer, to a block of its own, or as
-- `malloc` left it.
pub data Slot : Type 0 where
  null : Slot
  at_offset : ℕ → Slot
  detached : Bytes → Slot
  unset : Slot
