-- ===== src/Base/RoundTrip.antt =====
-- BinaryReader reads back what BinaryWriter wrote.
pub mod Numbers
pub mod SevenBit
pub mod Chains
use yohira.Common.{
  ℕ, zero, suc, ◌+◌, ◌-◌, ◌*◌, ◌/◌, ◌%◌, ◌^◌, ◌≤◌, ◌<◌, ◌≡◌, refl, sym, ap, ◌∙◌, Bool, true, false,
  List, [], ◌∷◌, ◌++◌, length, take, drop, ltb, leb, ℤ, pos, negsuc, done, arith, ◌>>=◌, ◌>>◌, pure,
  slice, take-append-drop, if◌then◌else◌,
}
use yohira.Base.MemoryStream.{M, MemoryStream, begin, seek}
use yohira.Base.MemoryStream.Invariant.{IsValid-at}
use yohira.Base.MemoryStream.Contents.{contents, overwrite, slice-overwrite}
use yohira.Base.MemoryStream.Reading.{seek_begin}
use yohira.Base.BinaryWriter
use yohira.Base.BinaryWriter.{
  le_bytes, to_unsigned, in_signed_range, emit_checked, write_uint8, write_7_bit_groups,
  write_int32_le, with_more,
}
use yohira.Base.BinaryWriter.Emitting.{IsGrowable, Appended, Emits, Emits-emit, Emits->>}
use yohira.Base.BinaryReader.{le_value, to_signed, read_buffer, read_uint8, read_int32_le}
use yohira.Base.BinaryReader.Taking.{Faces, skip, Takes, Takes-read_buffer, Takes->>=, Takes-map}

Faces-overwrite :
    (xs bytes : List ℕ) (s : MemoryStream) (f : IsGrowable s)
    → contents s ≡ overwrite xs (s.position - s.origin) bytes
    → Faces bytes s
Faces-overwrite xs bytes s f holds =
    let at = s.position - s.origin in
    let n = length bytes in
    let size : at + n - at ≡ n = omega arith in
    let front : take n (drop at (contents s)) ≡ bytes =
      rw holds (rw size at (slice-overwrite xs at bytes)) in
    record {
      valid = f.valid;
      opened = f.opened;
      rest = drop n (drop at (contents s));
      shows =
          sym (take-append-drop n (drop at (contents s)))
          ∙ ap (λ (b : List ℕ). b ++ drop n (drop at (contents s))) front;
    }

-- After a write the reader, moved back to where the write began, returns the value written.
abbrev pub RoundTrips : {A : Type 0} → M (Unit {0}) → M A → A → Type 0
RoundTrips w r a =
    (s : MemoryStream)
    → IsGrowable s
    → (t : MemoryStream) × ((do w; seek (pos (s.position - s.origin)) begin; r) s ≡ done a t)

pub round_trip :
    {A : Type 0} {w : M (Unit {0})} {r : M A} (bytes : List ℕ) {a : A}
    → Emits w bytes
    → Takes r bytes a
    → RoundTrips w r a
round_trip bytes {a} ew tr s g =
    let at = s.position - s.origin in
    let (t, wrote, w) = ew s g in
    let back = record t { position = t.origin + at } in
    let growable : IsGrowable back = record {
      valid = IsValid-at (t.origin + at) t w.growable.valid (omega arith);
      opened = w.growable.opened;
      writing = w.growable.writing;
      growing = w.growable.growing;
    } in
    let at' : t.origin + at - t.origin ≡ at = omega arith in
    let faces =
      Faces-overwrite (contents s) bytes back growable
        (w.holds ∙ ap (λ k. overwrite (contents s) k bytes) (sym at')) in
    (
      skip (length bytes) back,
      rw (wrote, ◌>>=◌) (rw (seek_begin at t w.growable.opened, ◌>>=◌) (tr back faces)),
    )
