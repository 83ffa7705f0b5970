-- ===== src/Base/RoundTrip/Numbers.antt =====
-- The fixed-width integers and the 7-bit encoding, written and read back.
use yohira.Common.{
  ℕ, zero, suc, ◌-◌, ◌*◌, ◌/◌, ◌^◌, ◌<◌, ◌≡◌, refl, ap, subst, Bool, true, false, not, List, [],
  ◌∷◌, ◌==◌, if◌then◌else◌, length, ℤ, pos, negsuc, done, arith, ◌>>=◌, ◌>>◌, pure,
}
use yohira.Base.MemoryStream.{MemoryStream, seek, begin}
use yohira.Base.BinaryWriter.{
  le_bytes, to_unsigned, in_signed_range, emit_checked, write_int32_le, write_boolean,
}
use yohira.Base.BinaryWriter.Emitting.{IsGrowable, Emits, Emits-emit}
use yohira.Base.BinaryReader.{le_value, to_signed, read_buffer, read_int32_le, read_boolean}
use yohira.Base.BinaryReader.Taking.{Takes, Takes-read_buffer, Takes-map}
use yohira.Base.RoundTrip.{round_trip}

Emits-emit_checked :
    (test : Bool) (bytes : List ℕ) → test ≡ true → Emits (emit_checked test bytes) bytes
unfolding emit_checked
Emits-emit_checked true bytes e = Emits-emit bytes
Emits-emit_checked false bytes e = cc

le_value-le_bytes_4 : (v : ℕ) → v < 2 ^ 32 → le_value (le_bytes 4 v) ≡ v
unfolding le_value le_bytes
le_value-le_bytes_4 v h = omega arith

-- Two's complement and back, for a value in its range.
to_signed-to_unsigned :
    (half : ℕ) (value : ℤ)
    → in_signed_range half value ≡ true
    → to_signed half (to_unsigned half value) ≡ value
to_signed-to_unsigned half (pos n) h = ground arith
to_signed-to_unsigned half (negsuc n) h = ground arith

to_unsigned_lt :
    (half : ℕ) (value : ℤ) → in_signed_range half value ≡ true → to_unsigned half value < 2 * half
to_unsigned_lt half (pos n) h = ground arith
to_unsigned_lt half (negsuc n) h = ground arith

length-le_bytes : (n v : ℕ) → length (le_bytes n v) ≡ n
unfolding le_bytes
length-le_bytes zero v = refl
length-le_bytes (suc n) v = ap suc (length-le_bytes n (v / 256))

Takes-number :
    {B : Type 0} (n v : ℕ) (f : ℕ → B)
    → le_value (le_bytes n v) ≡ v
    → Takes (read_buffer n >>= λ buffer. pure (f (le_value buffer))) (le_bytes n v) (f v)
Takes-number {B} n v f e =
    let read_with = λ (k : ℕ). read_buffer k >>= λ buffer. pure (f (le_value buffer)) in
    let found : Takes (read_with (length (le_bytes n v))) (le_bytes n v) (f v) =
      subst (λ w. Takes (read_with (length (le_bytes n v))) (le_bytes n v) (f w)) e
        (Takes-map (λ buffer. f (le_value buffer)) (Takes-read_buffer (le_bytes n v))) in
    subst (λ k. Takes (read_with k) (le_bytes n v) (f v)) (length-le_bytes n v) found

abbrev pub int32_bytes : ℤ → List ℕ
int32_bytes value = le_bytes 4 (to_unsigned (2 ^ 31) value)

module _ (value : ℤ) (h : in_signed_range (2 ^ 31) value ≡ true) where
  pub Emits-int32 : Emits (write_int32_le value) (int32_bytes value)
  unfolding write_int32_le
  Emits-int32 = Emits-emit_checked _ (int32_bytes value) h

  pub Takes-int32 : Takes read_int32_le (int32_bytes value) value
  unfolding read_int32_le
  Takes-int32 =
      let u = to_unsigned (2 ^ 31) value in
      let small = le_value-le_bytes_4 u (to_unsigned_lt (2 ^ 31) value h) in
      rw (to_signed-to_unsigned (2 ^ 31) value h) at (Takes-number 4 u (to_signed (2 ^ 31)) small)

abbrev pub boolean_bytes : Bool → List ℕ
boolean_bytes b = (if b then 1 else 0) ∷ []

pub Emits-boolean : (b : Bool) → Emits (write_boolean b) (boolean_bytes b)
unfolding write_boolean
Emits-boolean b = Emits-emit (boolean_bytes b)

pub Takes-boolean : (b : Bool) → Takes read_boolean (boolean_bytes b) b
unfolding read_boolean le_value
Takes-boolean true = Takes-map (λ buffer. not (le_value buffer == 0)) (Takes-read_buffer (1 ∷ []))
Takes-boolean false = Takes-map (λ buffer. not (le_value buffer == 0)) (Takes-read_buffer (0 ∷ []))

-- A 32-bit integer in range is written, and read back from where it was written.
pub int32_round_trip :
    (value : ℤ) (s : MemoryStream)
    → in_signed_range (2 ^ 31) value ≡ true
    → IsGrowable s
    → (t : MemoryStream) × ((do
      write_int32_le value
      seek (pos (s.position - s.origin)) begin
      read_int32_le)
          s
        ≡ done value t)
int32_round_trip value s h g =
    round_trip (int32_bytes value) (Emits-int32 value h) (Takes-int32 value h) s g
