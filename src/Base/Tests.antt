-- ===== src/Base/Tests.antt =====
-- MemoryStream, BinaryWriter and BinaryReader on concrete streams.
use yohira.Common.{
  ℕ, ◌≡◌, refl, true, false, List, [], ◌∷◌, inl, pos, negsuc, done, ok, thrown, ◌>>◌, blit, alloc,
  arith,
}
use yohira.Base.MemoryStream.{
  MemoryStream, alloc_stream, current, begin, seek, read, not_expandable,
}
use yohira.Base.MemoryStream.Invariant.{IsValid}
use yohira.Base.MemoryStream.Reachable.{
  reads, seeks, writes, run, allocated, called, Reachable-IsValid,
}
use yohira.Base.MemoryStream.Writing.{write}
use yohira.Base.MemoryStream.Contents.{contents, overwrite}
use yohira.Base.MemoryStream.Refinement.{write-overwrite, write_fixed}
use yohira.Base.MemoryStream.Reading.{read-contents, write-seek-read}
use yohira.Base.MemoryStream.Errors.{write-negative_count}
use yohira.Base.BinaryWriter.{write_int32_le, write_7_bit_encoded_int, write_string}
use yohira.Base.BinaryWriter.Emitting.{IsGrowable}
use yohira.Base.BinaryReader.{read_uint8, read_int32_le, read_7_bit_encoded_int, read_string}
use yohira.Base.BinaryReader.AtEnd.{read_at_end}
use yohira.Base.RoundTrip.Numbers.{int32_round_trip}
use yohira.Base.RoundTrip.SevenBit.{seven_bit_round_trip, string_round_trip}

abbrev bytes : List ℕ
bytes = 1 ∷ 2 ∷ 3 ∷ []

-- A stream that grows, at its byte 2.
abbrev growing : MemoryStream
growing = record {
  buffer = 7 ∷ 8 ∷ 9 ∷ [];
  origin = 0;
  position = 2;
  length = 3;
  capacity = 3;
  expandable = true;
  writable = true;
  exposable = true;
  is_open = true;
}

-- A stream over the last two bytes of a caller's buffer.
abbrev fixed : MemoryStream
fixed = record {
  buffer = 7 ∷ 8 ∷ 9 ∷ [];
  origin = 1;
  position = 2;
  length = 3;
  capacity = 3;
  expandable = false;
  writable = true;
  exposable = false;
  is_open = true;
}

growing-IsValid : IsValid growing
growing-IsValid = ground arith

fixed-IsValid : IsValid fixed
fixed-IsValid = ground arith

growing-IsGrowable : IsGrowable growing
growing-IsGrowable = record {
  valid = growing-IsValid;
  opened = refl;
  writing = refl;
  growing = refl;
}

write-overwrite_example :
    (t : MemoryStream) × (write bytes (pos 0) (pos 3) growing ≡ done tt t)
    × (contents t ≡ overwrite (contents growing) 2 bytes)
    × (t.position ≡ 5)
    × (t.origin ≡ 0)
    × (t.is_open ≡ true)
    × (t.writable ≡ true)
    × (t.expandable ≡ true)
    × IsValid t
write-overwrite_example =
    write-overwrite bytes 0 3 growing growing-IsValid refl refl (omega arith) (inl refl)

write_fixed_example : write bytes (pos 0) (pos 3) fixed ≡ thrown not_expandable fixed
write_fixed_example =
    write_fixed bytes 0 3 fixed fixed-IsValid refl refl refl (omega arith) (omega arith)

read-contents_example :
    read (0 ∷ 0 ∷ 0 ∷ []) (pos 1) (pos 2) fixed
    ≡ done (1, 0 ∷ 9 ∷ 0 ∷ []) (record fixed { position = 3 })
unfolding blit
read-contents_example = read-contents (0 ∷ 0 ∷ 0 ∷ []) 1 2 fixed fixed-IsValid refl (omega arith)

write-seek-read_example :
    (t : MemoryStream) × ((do
      write bytes (pos 0) (pos 3)
      seek (pos 2) begin
      read (alloc 3) (pos 0) (pos 3))
        growing
      ≡ done (3, bytes) t)
write-seek-read_example =
    write-seek-read bytes 0 3 growing growing-IsValid refl refl (omega arith) (inl refl)

write-negative_count_example :
    write bytes (pos 0) (negsuc 1) growing ≡ done tt (record growing { position = 0 })
write-negative_count_example =
    write-negative_count bytes 1 growing refl refl (omega arith) (omega arith)

int32_round_trip_example :
    (t : MemoryStream) × ((do write_int32_le (negsuc 299); seek (pos 2) begin; read_int32_le)
        growing
      ≡ done (negsuc 299) t)
int32_round_trip_example = int32_round_trip (negsuc 299) growing refl growing-IsGrowable

seven_bit_round_trip_example :
    (t : MemoryStream) × ((do
      write_7_bit_encoded_int (pos 300)
      seek (pos 2) begin
      read_7_bit_encoded_int)
        growing
      ≡ done (pos 300) t)
seven_bit_round_trip_example = seven_bit_round_trip (pos 300) growing refl growing-IsGrowable

string_round_trip_example :
    (t : MemoryStream) × ((do write_string bytes; seek (pos 2) begin; read_string) growing
      ≡ done bytes t)
string_round_trip_example = string_round_trip bytes growing (omega arith) growing-IsGrowable

abbrev at_end : MemoryStream
at_end = record fixed { position = 3 }

read_at_end_example :
    (read_uint8 at_end ≡ done 0 at_end) × (read_7_bit_encoded_int at_end ≡ done (pos 0) at_end)
read_at_end_example = read_at_end at_end refl (omega arith)

abbrev empty : MemoryStream
empty = record {
  buffer = [];
  origin = 0;
  position = 0;
  length = 0;
  capacity = 0;
  expandable = true;
  writable = true;
  exposable = true;
  is_open = true;
}

empty_made : alloc_stream (pos 0) ≡ ok empty
unfolding alloc_stream
empty_made = refl

-- After a write of three bytes, a seek that fails, and a read.
abbrev calls : MemoryStream
calls =
    run (reads bytes (pos 0) (pos 2))
      (run (seeks (negsuc 9) current) (run (writes bytes (pos 0) 3) empty))

Reachable-IsValid_example : IsValid calls
Reachable-IsValid_example = Reachable-IsValid calls (
    called (reads bytes (pos 0) (pos 2))
      (run (seeks (negsuc 9) current) (run (writes bytes (pos 0) 3) empty))
      (called (seeks (negsuc 9) current) (run (writes bytes (pos 0) 3) empty)
        (called (writes bytes (pos 0) 3) empty (allocated (pos 0) empty empty_made))))
