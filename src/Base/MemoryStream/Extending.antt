-- ===== src/Base/MemoryStream/Extending.antt =====
-- `extend` and `ensureCapacity` of a write: the state that they leave, in closed form.
use yohira.Common.{
  ℕ, ◌-◌, ◌*◌, max, ◌≤◌, ◌<◌, ◌≡◌, ◌⊎◌, true, false, arith, ltb, if◌then◌else◌, done, thrown, fill,
  alloc, slice, get_or, get_or-blit, length-blit, length-alloc, get_or-alloc, get_or_beyond,
  get_or-slice, length-slice, replicate,
}
use yohira.Base.MemoryStream.{MemoryStream, reallocate, ensure_capacity, not_expandable}
use yohira.Base.MemoryStream.Invariant.{IsValid, reallocate-IsValid}
use yohira.Base.MemoryStream.Writing.{grow, extend}

abbrev pub new_capacity : ℕ → MemoryStream → ℕ
new_capacity value s =
    if ltb (max value 256) (s.capacity * 2) then s.capacity * 2 else max value 256

pub ensure_capacity_lem :
    (value : ℕ) (s : MemoryStream)
    → IsValid s
    → s.is_open ≡ true
    → s.expandable ≡ true
    → s.capacity < value
    → ensure_capacity value s ≡ done true (reallocate (new_capacity value s) s)
unfolding ensure_capacity
ensure_capacity_lem value s v o e h = ground arith

-- A stream over a fixed buffer refuses to grow, and stays as it was.
pub ensure_capacity_fixed :
    (value : ℕ) (s : MemoryStream)
    → IsValid s
    → s.is_open ≡ true
    → s.expandable ≡ false
    → s.capacity < value
    → ensure_capacity value s ≡ thrown not_expandable s
unfolding ensure_capacity
ensure_capacity_fixed value s v o e h = ground arith

grow_fits : (i : ℕ) (s : MemoryStream) → i ≤ s.capacity → grow i s ≡ done false s
unfolding grow
grow_fits i s h = ground arith

grow_full : (i : ℕ) (s : MemoryStream) → s.capacity < i → grow i s ≡ ensure_capacity i s
unfolding grow
grow_full i s h = ground arith

-- The state after `extend`, where the stream has room or can grow.
pub extended : ℕ → MemoryStream → MemoryStream
extended i s =
    if ltb s.length i
    then (if ltb s.capacity i
        then record (reallocate (new_capacity i s) s) { length = i }
        else record s {
          buffer = if ltb s.length s.position then fill s.buffer 0 s.length i else s.buffer;
          length = i;
        })
    else s

pub extended_shape :
    (i : ℕ) (s : MemoryStream)
    → ((extended i s).origin ≡ s.origin)
      × ((extended i s).position ≡ s.position)
      × ((extended i s).length ≡ max s.length i)
      × ((extended i s).is_open ≡ s.is_open)
      × ((extended i s).writable ≡ s.writable)
      × ((extended i s).expandable ≡ s.expandable)
unfolding extended
extended_shape i s = ground arith

pub extend_lem :
    (i : ℕ) (s : MemoryStream)
    → IsValid s
    → s.is_open ≡ true
    → (s.expandable ≡ true) ⊎ (i ≤ s.capacity)
    → extend i s ≡ done tt (extended i s)
unfolding extend extended
extend_lem i s v o room = ground (arith, grow_fits i s, grow_full i s, ensure_capacity_lem i s v o)

pub extended-IsValid :
    (i : ℕ) (s : MemoryStream)
    → IsValid s
    → (s.expandable ≡ true) ⊎ (i ≤ s.capacity)
    → IsValid (extended i s)
unfolding extended
extended-IsValid i s v room = ground (
  arith,
  reallocate-IsValid (new_capacity i s) s v,
  length-blit s.buffer s.length (replicate (i - s.length) 0),
)

-- The bytes that the stream held stay, in the new buffer too.
pub extended_keeps :
    (i : ℕ) (s : MemoryStream) (j : ℕ)
    → IsValid s
    → j < s.length
    → get_or (extended i s).buffer j 0 ≡ get_or s.buffer j 0
unfolding extended
extended_keeps i s j v h =
    let room = alloc (new_capacity i s) in
    ground (
      arith,
      get_or-blit s.buffer s.length (replicate (i - s.length) 0) j 0,
      get_or-blit room 0 (slice s.buffer 0 s.length) j 0,
      get_or-slice s.buffer 0 s.length j 0,
      length-slice s.buffer 0 s.length,
      length-alloc (new_capacity i s),
    )

-- What lies between the old length and the position is zero.
pub extended_zero :
    (i : ℕ) (s : MemoryStream) (j : ℕ)
    → IsValid s
    → s.length ≤ j
    → j < s.position
    → s.position ≤ i
    → get_or (extended i s).buffer j 0 ≡ 0
unfolding extended
extended_zero i s j v h k m =
    let room = alloc (new_capacity i s) in
    ground (
      arith,
      get_or-blit s.buffer s.length (replicate (i - s.length) 0) j 0,
      length-alloc (i - s.length),
      get_or-alloc (i - s.length) (j - s.length),
      get_or_beyond s.buffer j 0,
      get_or-blit room 0 (slice s.buffer 0 s.length) j 0,
      get_or-alloc (new_capacity i s) j,
      length-slice s.buffer 0 s.length,
    )

pub extend_fixed :
    (i : ℕ) (s : MemoryStream)
    → IsValid s
    → s.is_open ≡ true
    → s.expandable ≡ false
    → s.capacity < i
    → extend i s ≡ thrown not_expandable s
unfolding extend
extend_fixed i s v o fixed h =
    ground (arith, grow_full i s h, ensure_capacity_fixed i s v o fixed h)
