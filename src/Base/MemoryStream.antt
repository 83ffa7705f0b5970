-- ===== src/Base/MemoryStream.antt =====
-- packages/base/src/MemoryStream.ts, with `validateBufferArguments` of Stream.ts. Numbers that may
-- be negative are integers; positions and lengths that the code keeps non-negative are naturals.
-- The state comes back when a method throws, as the object stays.
pub mod Invariant
pub mod Extending
pub mod Writing
pub mod Contents
pub mod Refinement
pub mod Reading
pub mod Errors
pub mod Reachable
use yohira.Common.{
  ℕ, ◌+◌, ◌-◌, ◌*◌, max, Bool, true, false, not, ◌&&◌, ◌||◌, List, [], ltb, leb, ◌==◌,
  if◌then◌else◌, length, ℤ, pos, pos_part, sub_ℕ, ◌+ℤ◌, ◌-ℤ◌, is_neg, ltb_ℤ, eqb_ℤ, Action, ◌>>=◌,
  ◌>>◌, pure, throw, throw_if, Result, ok, err, slice, alloc, copy, fill, copy_down,
}

pub data Error : Type 0 where
  negative out_of_bounds closed not_writable not_exposable too_small not_expandable : Error
  before_beginning not_implemented unnamed : Error
  -- Node's RangeError, and the one of `read7BitEncodedInt`.
  out_of_range too_many_bytes : Error
  -- No error of the code: a loop's fuel ran out, which is proved not to happen.
  out_of_fuel : Error

pub data SeekOrigin : Type 0 where
  begin current end : SeekOrigin

pub record MemoryStream : Type 0 where
  pub buffer : List ℕ
  pub origin : ℕ
  pub position : ℕ
  pub length : ℕ
  pub capacity : ℕ
  pub expandable : Bool
  pub writable : Bool
  pub exposable : Bool
  pub is_open : Bool

abbrev pub M : Type 0 → Type 0
M A = Action Error MemoryStream A

-- `MemoryStream.alloc`
unfoldable pub alloc_stream : ℤ → Result Error MemoryStream
alloc_stream capacity =
    if is_neg capacity
    then err negative
    else ok (record {
      buffer = alloc (pos_part capacity);
      origin = 0;
      position = 0;
      length = 0;
      capacity = pos_part capacity;
      expandable = true;
      writable = true;
      exposable = true;
      is_open = true;
    })

-- `MemoryStream.from`; the stream holds the caller's buffer itself.
unfoldable pub from : List ℕ → ℤ → ℤ → Bool → Bool → Result Error MemoryStream
from buffer index count writable publicly_visible =
    if is_neg index
    then err negative
    else if is_neg count
    then err negative
    else if ltb_ℤ (pos (length buffer) -ℤ index) count
    then err out_of_bounds
    else ok (record {
      buffer = buffer;
      origin = pos_part index;
      position = pos_part index;
      length = pos_part index + pos_part count;
      capacity = pos_part index + pos_part count;
      expandable = false;
      writable = writable;
      exposable = publicly_visible;
      is_open = true;
    })

-- `disposeCore(true)`
unfoldable pub dispose : M (Unit {0})
dispose s = pure tt (record s { is_open = false; writable = false; expandable = false })

unfoldable pub ensure_not_closed : M (Unit {0})
ensure_not_closed s = throw_if (not s.is_open) closed s

unfoldable pub ensure_writable : M (Unit {0})
ensure_writable s = throw_if (not s.writable) not_writable s

-- The getters.
unfoldable pub get_buffer : M (List ℕ)
get_buffer s = if not s.exposable then throw not_exposable s else pure s.buffer s

unfoldable pub try_get_buffer : MemoryStream → Result (List ℕ) (List ℕ)
try_get_buffer s = if not s.exposable then err (alloc 0) else ok (slice s.buffer s.origin s.length)

unfoldable pub get_length : M ℤ
unfolding ensure_not_closed
get_length = do ensure_not_closed; λ s. pure (sub_ℕ s.length s.origin) s

unfoldable pub get_position : M ℤ
unfolding ensure_not_closed
get_position = do ensure_not_closed; λ s. pure (sub_ℕ s.position s.origin) s

unfoldable pub set_position : ℤ → M (Unit {0})
unfolding ensure_not_closed
set_position value = do
  throw_if (is_neg value) negative
  ensure_not_closed
  λ s. pure tt (record s { position = s.origin + pos_part value })

unfoldable pub get_capacity : M ℤ
unfolding ensure_not_closed
get_capacity = do ensure_not_closed; λ s. pure (sub_ℕ s.capacity s.origin) s

-- The new buffer of the capacity's setter; `_capacity` is set with it.
abbrev pub reallocate : ℕ → MemoryStream → MemoryStream
reallocate value s = record s {
  buffer =
      if ltb 0 value
      then (if ltb 0 s.length then copy s.buffer (alloc value) 0 0 s.length else alloc value)
      else alloc 0;
  capacity = value;
}

unfoldable pub set_capacity : ℤ → M (Unit {0})
unfolding get_length get_capacity ensure_not_closed
set_capacity value = do
  size ← get_length
  throw_if (ltb_ℤ value size) too_small
  ensure_not_closed
  room ← get_capacity
  λ s. throw_if (not s.expandable && not (eqb_ℤ value room)) not_expandable s
  λ s. pure tt (
      if s.expandable && not (eqb_ℤ value (pos s.capacity))
      then reallocate (pos_part value) s
      else s)

-- Says whether a new array was allocated. The value is the end of a write, never negative.
unfoldable pub ensure_capacity : ℕ → M Bool
unfolding set_capacity
ensure_capacity value s =
    if ltb s.capacity value
    then (do
      set_capacity
          (pos (if ltb (max value 256) (s.capacity * 2) then s.capacity * 2 else max value 256))
      pure true)
        s
    else pure false s

-- `Stream.validateBufferArguments`: the count alone is not tested.
unfoldable pub validate_buffer_arguments : List ℕ → ℤ → ℤ → M (Unit {0})
validate_buffer_arguments buffer offset count = do
  throw_if (is_neg offset) unnamed
  throw_if (ltb_ℤ (pos (length buffer) -ℤ offset) count) unnamed

-- The bytes left from the position on, at most `count`; 0 where the code's difference is negative.
abbrev pub readable : MemoryStream → ℤ → ℕ
readable s count =
    if ltb (pos_part count) (s.length - s.position) then pos_part count else s.length - s.position

-- Returns the number of bytes read, and the caller's buffer with them written to it.
unfoldable pub read : List ℕ → ℤ → ℤ → M (ℕ × List ℕ)
unfolding ensure_not_closed
read buffer offset count = do
  validate_buffer_arguments buffer offset count
  ensure_not_closed
  λ s.
      let n = readable s count in
      if n == 0
      then pure (0, buffer) s
      else pure
          (
            n,
            if leb n 8
                then copy_down n buffer (pos_part offset) s.buffer s.position
                else copy s.buffer buffer (pos_part offset) s.position (s.position + n),
          )
          (record s { position = s.position + n })

-- Where `seek` counts from.
abbrev pub seek_base : SeekOrigin → MemoryStream → ℕ
seek_base begin s = s.origin
seek_base current s = s.position
seek_base end s = s.length

-- The test of each case of `seek`.
abbrev pub before_start : SeekOrigin → ℤ → MemoryStream → Bool
before_start begin offset s = is_neg offset || ltb_ℤ (pos s.origin +ℤ offset) (pos s.origin)
before_start loc offset s = ltb_ℤ (pos (seek_base loc s) +ℤ offset) (pos s.origin)

unfoldable pub seek : ℤ → SeekOrigin → M ℕ
unfolding ensure_not_closed
seek offset loc = do
  ensure_not_closed
  λ s. throw_if (before_start loc offset s) before_beginning s
  λ s.
      let target = pos_part (pos (seek_base loc s) +ℤ offset) in
      pure target (record s { position = target })

unfoldable pub to_buffer : MemoryStream → List ℕ
to_buffer s =
    if s.length - s.origin == 0
    then alloc 0
    else slice s.buffer s.origin (s.origin + (s.length - s.origin))
