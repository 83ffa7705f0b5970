-- ===== src/Base/BinaryWriter.antt =====
-- packages/base/src/BinaryWriter.ts over a MemoryStream, with the integer formats of Node's Buffer:
-- `writeUint8`, `writeInt16LE` and the like, which throw a RangeError for a value out of range.
pub mod Emitting
use yohira.Common.{
  ℕ, zero, suc, ◌+◌, ◌-◌, ◌*◌, ◌/◌, ◌%◌, ◌^◌, Bool, true, false, List, [], ◌∷◌, ◌++◌, length, ltb,
  ◌&&◌, leb, ℤ, pos, negsuc, throw, ◌>>◌, if◌then◌else◌,
}
use yohira.Base.MemoryStream.{M, Error, SeekOrigin, dispose, seek, out_of_range, out_of_fuel}
use yohira.Base.MemoryStream.Writing.{write}

-- The `n` low bytes of a number, the lowest first.
unfoldable pub le_bytes : ℕ → ℕ → List ℕ
le_bytes zero v = []
le_bytes (suc n) v = v % 256 ∷ le_bytes n (v / 256)

-- The same, the highest first.
unfoldable pub be_bytes : ℕ → ℕ → List ℕ
be_bytes zero v = []
be_bytes (suc n) v = be_bytes n (v / 256) ++ (v % 256 ∷ [])

-- Two's complement with 2 * `half` patterns, of a value in its range.
abbrev pub to_unsigned : ℕ → ℤ → ℕ
to_unsigned half (pos n) = n
to_unsigned half (negsuc n) = 2 * half - 1 - n

abbrev pub in_signed_range : ℕ → ℤ → Bool
in_signed_range half (pos n) = ltb n half
in_signed_range half (negsuc n) = ltb n half

abbrev pub in_unsigned_range : ℕ → ℤ → Bool
in_unsigned_range size (pos n) = ltb n size
in_unsigned_range size (negsuc n) = false

abbrev pub magnitude : ℤ → ℕ
magnitude (pos n) = n
magnitude (negsuc n) = n

-- `this.outStream.write(buffer, 0, buffer.length)`
unfoldable pub emit : List ℕ → M (Unit {0})
emit bytes = write bytes (pos 0) (pos (length bytes))

-- Writes the bytes, or throws the RangeError of the test.
unfoldable pub emit_checked : Bool → List ℕ → M (Unit {0})
emit_checked true bytes = emit bytes
emit_checked false bytes = throw out_of_range

unfoldable pub write_boolean : Bool → M (Unit {0})
write_boolean value = emit ((if value then 1 else 0) ∷ [])

unfoldable pub write_uint8 : ℤ → M (Unit {0})
write_uint8 value = emit_checked (in_unsigned_range 256 value) (le_bytes 1 (magnitude value))

unfoldable pub write_int16_le : ℤ → M (Unit {0})
write_int16_le value =
    emit_checked (in_signed_range (2 ^ 15) value) (le_bytes 2 (to_unsigned (2 ^ 15) value))

unfoldable pub write_int32_le : ℤ → M (Unit {0})
write_int32_le value =
    emit_checked (in_signed_range (2 ^ 31) value) (le_bytes 4 (to_unsigned (2 ^ 31) value))

unfoldable pub write_uint16_le : ℤ → M (Unit {0})
write_uint16_le value =
    emit_checked (in_unsigned_range (2 ^ 16) value) (le_bytes 2 (magnitude value))

unfoldable pub write_uint32_le : ℤ → M (Unit {0})
write_uint32_le value =
    emit_checked (in_unsigned_range (2 ^ 32) value) (le_bytes 4 (magnitude value))

unfoldable pub write_uint32_be : ℤ → M (Unit {0})
write_uint32_be value =
    emit_checked (in_unsigned_range (2 ^ 32) value) (be_bytes 4 (magnitude value))

-- `new Uint32Array([value])[0]`
unfoldable pub to_uint32 : ℤ → ℕ
to_uint32 (pos n) = n % 2 ^ 32
to_uint32 (negsuc n) = 2 ^ 32 - 1 - n % 2 ^ 32

-- `new Uint8Array([u | ~0x7f])[0]`: the low seven bits of `u`, and the eighth set.
abbrev pub with_more : ℕ → ℕ
with_more u = u % 128 + 128

-- The loop of `write7BitEncodedInt`: each round drops seven bits, so five are enough for 32.
unfoldable pub write_7_bit_groups : ℕ → ℕ → M (Unit {0})
write_7_bit_groups zero u = throw out_of_fuel
write_7_bit_groups (suc fuel) u =
    let rest = write_7_bit_groups fuel (u / 128) in
    if ltb 0x7f u then write_uint8 (pos (with_more u)) >> rest else write_uint8 (pos u)

unfoldable pub write_7_bit_encoded_int : ℤ → M (Unit {0})
write_7_bit_encoded_int value = write_7_bit_groups 5 (to_uint32 value)

-- The text encoding of Node's Buffer is not modelled: a string comes as its bytes.
unfoldable pub write_string : List ℕ → M (Unit {0})
write_string bytes = write_7_bit_encoded_int (pos (length bytes)) >> emit bytes
