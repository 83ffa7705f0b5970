-- ===== src/Base/RoundTrip/SevenBit.antt =====
-- The 7-bit encoding of 32-bit integers, and strings behind their length.
use yohira.Common.{
  ℕ, zero, suc, ◌+◌, ◌-◌, ◌*◌, ◌/◌, ◌%◌, ◌^◌, ◌<◌, ◌≡◌, ap, true, false, List, [], ◌∷◌, ◌++◌,
  length, ltb, lt→ltb, leb, ℤ, pos, negsuc, arith, done, ◌>>=◌, ◌>>◌, if◌then◌else◌, Bool-cases,
  inl, inr,
}
use native.Mathlib.Numerals.{towards_suc}
use yohira.Base.MemoryStream.{MemoryStream, seek, begin}
use yohira.Base.BinaryWriter.{
  le_bytes, in_signed_range, emit_checked, write_uint8, to_uint32, with_more, write_7_bit_groups,
  write_7_bit_encoded_int, write_string,
}
use yohira.Base.BinaryWriter.Emitting.{IsGrowable, Emits, Emits-emit, Emits->>}
use yohira.Base.BinaryReader.{
  le_value, to_signed, read_uint8, read_7_bit_groups, read_7_bit_encoded_int, read_string,
}
use yohira.Base.BinaryReader.Taking.{Takes, Takes-read_buffer, Takes->>=, Takes-map}
use yohira.Base.RoundTrip.{round_trip}

-- The bytes that the loop writes, with `n` rounds at most.
to_uint32_lt : (value : ℤ) → to_uint32 value < 2 ^ 32
unfolding to_uint32
to_uint32_lt (pos n) = omega arith
to_uint32_lt (negsuc n) = omega arith

to_signed-to_uint32 :
    (value : ℤ)
    → in_signed_range (2 ^ 31) value ≡ true
    → to_signed (2 ^ 31) (0 + to_uint32 value * 2 ^ 0) ≡ value
unfolding to_uint32
to_signed-to_uint32 (pos n) h = ground arith
to_signed-to_uint32 (negsuc n) h = ground arith

groups : ℕ → ℕ → List ℕ
groups zero u = []
groups (suc n) u = if ltb 0x7f u then with_more u ∷ groups n (u / 128) else u ∷ []

-- What `k` rounds and a last byte below 16 can hold: 2 ^ 32 for four rounds.
abbrev bound : ℕ → ℕ
bound zero = 16
bound (suc k) = 128 * bound k

Emits-uint8 : (b : ℕ) → b < 256 → Emits (write_uint8 (pos b)) (b ∷ [])
unfolding write_uint8 emit_checked le_bytes
Emits-uint8 b h =
    let low : b % 256 ≡ b = omega arith in rw (lt→ltb b 256 h, low) (Emits-emit (b ∷ []))

Takes-uint8 : (b : ℕ) → Takes read_uint8 (b ∷ []) b
unfolding read_uint8 le_value
Takes-uint8 b =
    let whole : b + 256 * 0 ≡ b = omega arith in
    rw whole at (Takes-map le_value (Takes-read_buffer (b ∷ [])))

Emits-groups : (k u : ℕ) → u < bound k → Emits (write_7_bit_groups (suc k) u) (groups (suc k) u)
unfolding write_7_bit_groups groups
Emits-groups zero u h =
    let small : ltb 0x7f u ≡ false = ground arith in rw small (Emits-uint8 u (omega arith))
Emits-groups (suc k) u h = elim (Bool-cases (ltb 0x7f u)) [
  | inl more ↦
      rw more (
        Emits->> (Emits-uint8 (with_more u) (omega arith)) (Emits-groups k (u / 128) (omega arith)))
  | inr last ↦ rw last (Emits-uint8 u (ground arith))
]

next_shift : (s : ℕ) → 2 ^ (s + 7) ≡ 128 * 2 ^ s
next_shift s = simp towards_suc (omega arith)

regroup : (p u : ℕ) → u % 128 * p + u / 128 * (128 * p) ≡ u * p
regroup p u =
    let split : u % 128 + 128 * (u / 128) ≡ u = omega arith in
    omega (arith, ap (λ (t : ℕ). t * p) split)

Takes-last :
    (shift result u : ℕ)
    → u < 16
    → Takes
        (read_7_bit_groups zero shift result)
        (u ∷ [])
        (to_signed (2 ^ 31) (result + u * 2 ^ shift))
unfolding read_7_bit_groups
Takes-last shift result u h s f =
    let fits : ltb 15 u ≡ false = ground arith in rw (Takes-uint8 u s f, ◌>>=◌) (rw fits)

-- A round that returns.
Takes-stop :
    (k shift result u : ℕ)
    → u < 128
    → Takes
        (read_7_bit_groups (suc k) shift result)
        (u ∷ [])
        (to_signed (2 ^ 31) (result + u * 2 ^ shift))
unfolding read_7_bit_groups
Takes-stop k shift result u h s f =
    let stops : leb u 0x7f ≡ true = ground arith in
    let low : u % 128 ≡ u = omega arith in rw (Takes-uint8 u s f, ◌>>=◌) (rw (stops, low))

-- A round that goes on with the rest of the bytes.
Takes-more :
    (k shift result u : ℕ) {rest : List ℕ} {value : ℤ}
    → Takes (read_7_bit_groups k (shift + 7) (result + u % 128 * 2 ^ shift)) rest value
    → Takes (read_7_bit_groups (suc k) shift result) (with_more u ∷ rest) value
unfolding read_7_bit_groups
Takes-more k shift result u {rest} {value} tk s f =
    let goes : leb (with_more u) 0x7f ≡ false = ground arith in
    let low : with_more u % 128 ≡ u % 128 = omega arith in
    Takes->>= _ (Takes-uint8 (with_more u)) (rw (goes, low) tk) s f

Takes-groups :
    (k shift result u : ℕ)
    → u < bound k
    → Takes
        (read_7_bit_groups k shift result)
        (groups (suc k) u)
        (to_signed (2 ^ 31) (result + u * 2 ^ shift))
unfolding groups
Takes-groups zero shift result u h =
    let small : ltb 0x7f u ≡ false = ground arith in rw small (Takes-last shift result u h)
Takes-groups (suc k) shift result u h = elim (Bool-cases (ltb 0x7f u)) [
  | inl more ↦
      let sum : result + u % 128 * 2 ^ shift + u / 128 * 2 ^ (shift + 7) ≡ result + u * 2 ^ shift =
        omega (arith, regroup (2 ^ shift) u, ap (λ (t : ℕ). u / 128 * t) (next_shift shift)) in
      rw (more, ← sum)
        (Takes-more k shift result u
          (Takes-groups k (shift + 7) (result + u % 128 * 2 ^ shift) (u / 128) (omega arith)))
  | inr last ↦ rw last (Takes-stop k shift result u (ground arith))
]

-- A 32-bit integer is written in the 7-bit encoding, for whatever bits, and read back as it was.
pub seven_bit_round_trip :
    (value : ℤ) (s : MemoryStream)
    → in_signed_range (2 ^ 31) value ≡ true
    → IsGrowable s
    → (t : MemoryStream) × ((do
      write_7_bit_encoded_int value
      seek (pos (s.position - s.origin)) begin
      read_7_bit_encoded_int)
          s
        ≡ done value t)
unfolding write_7_bit_encoded_int read_7_bit_encoded_int
seven_bit_round_trip value s h g =
    let u = to_uint32 value in
    let takes = rw (to_signed-to_uint32 value h) at (Takes-groups 4 0 0 u (to_uint32_lt value)) in
    round_trip (groups 5 u) (Emits-groups 4 u (to_uint32_lt value)) takes s g

Takes-length :
    (n : ℕ) → n < 2 ^ 31 → Takes read_7_bit_encoded_int (groups 5 (to_uint32 (pos n))) (pos n)
unfolding read_7_bit_encoded_int
Takes-length n h =
    rw (to_signed-to_uint32 (pos n) (lt→ltb n (2 ^ 31) h)) at
      (Takes-groups 4 0 0 (to_uint32 (pos n)) (to_uint32_lt (pos n)))

pub string_bytes : List ℕ → List ℕ
string_bytes bytes = groups 5 (to_uint32 (pos (length bytes))) ++ bytes

pub Emits-string : (bytes : List ℕ) → Emits (write_string bytes) (string_bytes bytes)
unfolding write_string write_7_bit_encoded_int string_bytes
Emits-string bytes =
    Emits->> (Emits-groups 4 _ (to_uint32_lt (pos (length bytes)))) (Emits-emit bytes)

pub Takes-string :
    (bytes : List ℕ) → length bytes < 2 ^ 31 → Takes read_string (string_bytes bytes) bytes
unfolding read_string string_bytes
Takes-string bytes h = Takes->>= _ (Takes-length (length bytes) h) (Takes-read_buffer bytes)

-- A string of fewer than 2 ^ 31 bytes is written behind its length, and read back byte for byte.
pub string_round_trip :
    (bytes : List ℕ) (s : MemoryStream)
    → length bytes < 2 ^ 31
    → IsGrowable s
    → (t : MemoryStream) × ((do
      write_string bytes
      seek (pos (s.position - s.origin)) begin
      read_string)
          s
        ≡ done bytes t)
string_round_trip bytes s h g =
    round_trip (string_bytes bytes) (Emits-string bytes) (Takes-string bytes h) s g
