-- ===== src/Base/MemoryStream/Invariant.antt =====
-- What every MemoryStream keeps, and that its constructors and methods keep it.
use yohira.Common.{
  ℕ, ◌+◌, ◌≤◌, ◌≡◌, Bool, true, false, List, length, ℤ, pos, Result, ok, err, Outcome, done, thrown,
  arith, length-blit, length-alloc, ◌+ℤ◌, ◌-ℤ◌, alloc, slice, pos_part,
}
use yohira.Base.MemoryStream.{
  MemoryStream, SeekOrigin, begin, current, end, Error, alloc_stream, from, dispose, set_position,
  set_capacity, reallocate, validate_buffer_arguments, read, seek,
}

pub record IsValid (s : MemoryStream) : Type 0 where
  pub origin-le-length : s.origin ≤ s.length
  pub origin-le-position : s.origin ≤ s.position
  pub length-le-capacity : s.length ≤ s.capacity
  pub capacity-le-buffer : s.capacity ≤ length s.buffer
  pub expandable_origin : s.expandable ≡ true → s.origin ≡ 0
  pub expandable_buffer : s.expandable ≡ true → s.capacity ≡ length s.buffer
  pub closed_readonly : s.is_open ≡ false → s.writable ≡ false

-- What an action leaves behind is valid, also where it throws.
abbrev pub Leaves : {A : Type 0} → Outcome Error MemoryStream A → Type 0
Leaves (done _ t) = IsValid t
Leaves (thrown _ t) = IsValid t

abbrev pub Makes : Result Error MemoryStream → Type 0
Makes (ok s) = IsValid s
Makes (err _) = Unit

pub alloc_stream-IsValid : (capacity : ℤ) → Makes (alloc_stream capacity)
unfolding alloc_stream
alloc_stream-IsValid capacity = ground (arith, length-alloc (pos_part capacity))

pub from-IsValid :
    (buffer : List ℕ) (index count : ℤ) (writable visible : Bool)
    → Makes (from buffer index count writable visible)
unfolding from ◌-ℤ◌
from-IsValid buffer index count writable visible = ground arith

pub reallocate-IsValid :
    (value : ℕ) (s : MemoryStream)
    → IsValid s
    → s.expandable ≡ true
    → s.length ≤ value
    → IsValid (reallocate value s)
reallocate-IsValid value s v e h =
    ground (arith, length-blit (alloc value) 0 (slice s.buffer 0 s.length), length-alloc value)

pub dispose-IsValid : (s : MemoryStream) → IsValid s → Leaves (dispose s)
unfolding dispose
dispose-IsValid s v = ground arith

pub set_position-IsValid :
    (value : ℤ) (s : MemoryStream) → IsValid s → Leaves (set_position value s)
unfolding set_position
set_position-IsValid value s v = ground arith

pub set_capacity-IsValid :
    (value : ℤ) (s : MemoryStream) → IsValid s → Leaves (set_capacity value s)
unfolding set_capacity
set_capacity-IsValid value s v = ground (arith, reallocate-IsValid (pos_part value) s v)

pub validate_buffer_arguments-done :
    (buffer : List ℕ) (offset n : ℕ) (s : MemoryStream)
    → offset + n ≤ length buffer
    → validate_buffer_arguments buffer (pos offset) (pos n) s ≡ done tt s
unfolding validate_buffer_arguments ◌-ℤ◌
validate_buffer_arguments-done buffer offset n s h = ground arith

pub read-IsValid :
    (buffer : List ℕ) (offset count : ℤ) (s : MemoryStream)
    → IsValid s
    → Leaves (read buffer offset count s)
unfolding read validate_buffer_arguments
read-IsValid buffer offset count s v = ground arith

pub seek-IsValid :
    (offset : ℤ) (loc : SeekOrigin) (s : MemoryStream) → IsValid s → Leaves (seek offset loc s)
unfolding seek ◌+ℤ◌
seek-IsValid offset begin s v = ground arith
seek-IsValid offset current s v = ground arith
seek-IsValid offset end s v = ground arith

-- A valid stream is valid at every position from its origin on.
pub IsValid-at :
    (p : ℕ) (s : MemoryStream) → IsValid s → s.origin ≤ p → IsValid (record s { position = p })
IsValid-at p s v h = record {
  origin-le-length = v.origin-le-length;
  origin-le-position = h;
  length-le-capacity = v.length-le-capacity;
  capacity-le-buffer = v.capacity-le-buffer;
  expandable_origin = v.expandable_origin;
  expandable_buffer = v.expandable_buffer;
  closed_readonly = v.closed_readonly;
}
