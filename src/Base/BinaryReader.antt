-- ===== src/Base/BinaryReader.antt =====
-- packages/base/src/BinaryReader.ts over a MemoryStream, with the integer formats of Node's Buffer.
pub mod Taking
pub mod AtEnd
use yohira.Common.{
  ℕ, zero, suc, ◌+◌, ◌-◌, ◌*◌, ◌%◌, ◌^◌, Bool, true, false, not, List, [], ◌∷◌, length, ltb, leb,
  ◌==◌, ℤ, pos, negsuc, pure, throw, ◌>>=◌, alloc, if◌then◌else◌,
}
use yohira.Base.MemoryStream.{M, Error, read, out_of_range, too_many_bytes}

-- The number that some bytes stand for, the lowest first.
unfoldable pub le_value : List ℕ → ℕ
le_value [] = 0
le_value (b ∷ bs) = b + 256 * le_value bs

-- Two's complement with 2 * `half` patterns.
abbrev pub to_signed : ℕ → ℕ → ℤ
to_signed half u = if ltb u half then pos u else negsuc (2 * half - 1 - u)

-- `const buffer = Buffer.alloc(n); this._stream.read(buffer, 0, buffer.length);`: the number of bytes
-- that `read` found is not looked at.
unfoldable pub read_buffer : ℕ → M (List ℕ)
read_buffer n = do (found, buffer) ← read (alloc n) (pos 0) (pos n); pure buffer

unfoldable pub read_boolean : M Bool
read_boolean = do buffer ← read_buffer 1; pure (not (le_value buffer == 0))

unfoldable pub read_uint8 : M ℕ
read_uint8 = do buffer ← read_buffer 1; pure (le_value buffer)

unfoldable pub read_int16_le : M ℤ
read_int16_le = do buffer ← read_buffer 2; pure (to_signed (2 ^ 15) (le_value buffer))

unfoldable pub read_int32_le : M ℤ
read_int32_le = do buffer ← read_buffer 4; pure (to_signed (2 ^ 31) (le_value buffer))

unfoldable pub read_uint16_le : M ℕ
read_uint16_le = do buffer ← read_buffer 2; pure (le_value buffer)

unfoldable pub read_uint32_le : M ℕ
read_uint32_le = do buffer ← read_buffer 4; pure (le_value buffer)

-- The rounds of `read7BitEncodedInt` that are left, and behind them its fifth byte. `result` is below
-- `2 ^ shift`, so `|=` adds the new group; the sum is a 32-bit pattern, read as a signed number at
-- the end.
unfoldable pub read_7_bit_groups : ℕ → ℕ → ℕ → M ℤ
read_7_bit_groups zero shift result = read_uint8 >>= λ byte.
    if ltb 15 byte
    then throw too_many_bytes
    else pure (to_signed (2 ^ 31) (result + byte * 2 ^ shift))
read_7_bit_groups (suc rounds) shift result = read_uint8 >>= λ byte.
    let sum = result + byte % 128 * 2 ^ shift in
    let rest = read_7_bit_groups rounds (shift + 7) sum in
    if leb byte 0x7f then pure (to_signed (2 ^ 31) sum) else rest

unfoldable pub read_7_bit_encoded_int : M ℤ
read_7_bit_encoded_int = read_7_bit_groups 4 0 0

-- The bytes of a string; `Buffer.alloc` refuses a negative length.
unfoldable pub read_string : M (List ℕ)
read_string = do
  size ← read_7_bit_encoded_int
  elim size [ pos n ↦ read_buffer n | negsuc n ↦ throw out_of_range ]
