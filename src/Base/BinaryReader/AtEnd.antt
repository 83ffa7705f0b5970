-- ===== src/Base/BinaryReader/AtEnd.antt =====
-- A BinaryReader at the end of its stream: it does not notice.
use yohira.Common.{ℕ, ◌≤◌, ◌≡◌, true, pos, done, arith, ◌>>=◌, alloc, length-alloc}
use yohira.Base.MemoryStream.{MemoryStream, read}
use yohira.Base.MemoryStream.Invariant.{validate_buffer_arguments-done}
use yohira.Base.BinaryReader.{
  read_buffer, read_uint8, read_7_bit_encoded_int, read_7_bit_groups, le_value,
}

read_buffer_at_end :
    (n : ℕ) (s : MemoryStream)
    → s.is_open ≡ true
    → s.length ≤ s.position
    → read_buffer n s ≡ done (alloc n) s
unfolding read_buffer read
read_buffer_at_end n s o h =
    ground (arith, validate_buffer_arguments-done (alloc n) 0 n s, length-alloc n)

-- At the end of an open stream `readUint8` and `read7BitEncodedInt` throw nothing: they return 0, and
-- leave the stream as it is.
pub read_at_end :
    (s : MemoryStream)
    → s.is_open ≡ true
    → s.length ≤ s.position
    → (read_uint8 s ≡ done 0 s) × (read_7_bit_encoded_int s ≡ done (pos 0) s)
read_at_end s o h = (byte, int)
  where
    byte : read_uint8 s ≡ done 0 s
    byte = unfold read_uint8 le_value in rw (read_buffer_at_end 1 s o h, ◌>>=◌)

    int : read_7_bit_encoded_int s ≡ done (pos 0) s
    int = unfold read_7_bit_encoded_int read_7_bit_groups in rw (byte, ◌>>=◌)
