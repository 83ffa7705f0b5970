-- ===== src/Base/MemoryStream/Reachable.antt =====
-- MemoryStream's life: what its constructors make, and what any sequence of calls leaves.
use yohira.Common.{
  ℕ, ◌+◌, ◌≤◌, ◌≡◌, sym, subst, inl, inr, Bool, true, false, List, leb, leb→le, length, ℤ, pos,
  negsuc, Outcome, done, thrown, ok, Bool-cases, ◌-ℤ◌, arith,
}
use yohira.Base.MemoryStream.{
  Error, unnamed, closed, not_writable, MemoryStream, SeekOrigin, alloc_stream, from, dispose,
  set_position, set_capacity, read, seek, validate_buffer_arguments,
}
use yohira.Base.MemoryStream.Writing.{write}
use yohira.Base.MemoryStream.Invariant.{
  IsValid, Leaves, Makes, alloc_stream-IsValid, from-IsValid, dispose-IsValid, set_position-IsValid,
  set_capacity-IsValid, read-IsValid, seek-IsValid, validate_buffer_arguments-done,
}
use yohira.Base.MemoryStream.Refinement.{write-overwrite, write_fixed}

-- The state that a call leaves, whether it throws or not.
abbrev pub left : {A : Type 0} → Outcome Error MemoryStream A → MemoryStream
left (done _ t) = t
left (thrown _ t) = t

-- The calls that change the state. The count of a write is not negative.
pub data Call : Type 0 where
  disposes : Call
  sets_position sets_capacity : ℤ → Call
  reads : List ℕ → ℤ → ℤ → Call
  seeks : ℤ → SeekOrigin → Call
  writes : List ℕ → ℤ → ℕ → Call

abbrev pub run : Call → MemoryStream → MemoryStream
run disposes s = left (dispose s)
run (sets_position value) s = left (set_position value s)
run (sets_capacity value) s = left (set_capacity value s)
run (reads buffer offset count) s = left (read buffer offset count s)
run (seeks offset loc) s = left (seek offset loc s)
run (writes source offset n) s = left (write source offset (pos n) s)

pub data Reachable : MemoryStream → Type 0 where
  allocated : (capacity : ℤ) (s : MemoryStream) → alloc_stream capacity ≡ ok s → Reachable s
  taken :
      (buffer : List ℕ) (index count : ℤ) (writable visible : Bool) (s : MemoryStream)
      → from buffer index count writable visible ≡ ok s
      → Reachable s
  called : (call : Call) (s : MemoryStream) → Reachable s → Reachable (run call s)

left-IsValid : {A : Type 0} (o : Outcome Error MemoryStream A) → Leaves o → IsValid (left o)
left-IsValid (done _ t) v = v
left-IsValid (thrown _ t) v = v

write_negative_offset :
    (source : List ℕ) (o n : ℕ) (s : MemoryStream)
    → write source (negsuc o) (pos n) s ≡ thrown unnamed s
unfolding write validate_buffer_arguments
write_negative_offset source o n s = ground arith

write_outside :
    (source : List ℕ) (o n : ℕ) (s : MemoryStream)
    → leb (o + n) (length source) ≡ false
    → write source (pos o) (pos n) s ≡ thrown unnamed s
unfolding write validate_buffer_arguments ◌-ℤ◌
write_outside source o n s h = ground arith

write_closed :
    (source : List ℕ) (o n : ℕ) (s : MemoryStream)
    → o + n ≤ length source
    → s.is_open ≡ false
    → write source (pos o) (pos n) s ≡ thrown closed s
unfolding write
write_closed source o n s h k = ground (arith, validate_buffer_arguments-done source o n s h)

write_readonly :
    (source : List ℕ) (o n : ℕ) (s : MemoryStream)
    → o + n ≤ length source
    → s.is_open ≡ true
    → s.writable ≡ false
    → write source (pos o) (pos n) s ≡ thrown not_writable s
unfolding write
write_readonly source o n s h k l = ground (arith, validate_buffer_arguments-done source o n s h)

write_in_place :
    (source : List ℕ) (o n : ℕ) (s : MemoryStream)
    → IsValid s
    → o + n ≤ length source
    → s.is_open ≡ true
    → s.writable ≡ true
    → Leaves (write source (pos o) (pos n) s)
write_in_place source o n s v h k l = elim (Bool-cases s.expandable) [
  | inl e ↦
      let (t, w, _, _, _, _, _, _, valid) = write-overwrite source o n s v k l h (inl e) in
      subst Leaves (sym w) valid
  | inr e ↦ elim (Bool-cases (leb (s.position + n) s.capacity)) [
    | inl fits ↦
        let (t, w, _, _, _, _, _, _, valid) =
          write-overwrite source o n s v k l h (inr (leb→le _ _ fits)) in
        subst Leaves (sym w) valid
    | inr full ↦ subst Leaves (sym (write_fixed source o n s v k l e h (ground arith))) v
  ]
]

write-Leaves :
    (source : List ℕ) (offset : ℤ) (n : ℕ) (s : MemoryStream)
    → IsValid s
    → Leaves (write source offset (pos n) s)
write-Leaves source (negsuc o) n s v = subst Leaves (sym (write_negative_offset source o n s)) v
write-Leaves source (pos o) n s v = elim (Bool-cases (leb (o + n) (length source))) [
  | inr h ↦ subst Leaves (sym (write_outside source o n s h)) v
  | inl h ↦ elim (Bool-cases s.is_open) [
    | inr k ↦ subst Leaves (sym (write_closed source o n s (leb→le _ _ h) k)) v
    | inl k ↦ elim (Bool-cases s.writable) [
      | inr l ↦ subst Leaves (sym (write_readonly source o n s (leb→le _ _ h) k l)) v
      | inl l ↦ write_in_place source o n s v (leb→le _ _ h) k l
    ]
  ]
]

run-IsValid : (call : Call) (s : MemoryStream) → IsValid s → IsValid (run call s)
run-IsValid disposes s v = left-IsValid (dispose s) (dispose-IsValid s v)
run-IsValid (sets_position value) s v =
    left-IsValid (set_position value s) (set_position-IsValid value s v)
run-IsValid (sets_capacity value) s v =
    left-IsValid (set_capacity value s) (set_capacity-IsValid value s v)
run-IsValid (reads buffer offset count) s v =
    left-IsValid (read buffer offset count s) (read-IsValid buffer offset count s v)
run-IsValid (seeks offset loc) s v = left-IsValid (seek offset loc s) (seek-IsValid offset loc s v)
run-IsValid (writes source offset n) s v =
    left-IsValid (write source offset (pos n) s) (write-Leaves source offset n s v)

-- Every stream that there can be is in order. A stream that a constructor made, after whatever calls
-- with whatever arguments, failed ones included and in any order, but for writes of a negative count:
-- its origin is at most its length and its position, its length at most its capacity, which its
-- buffer holds; if it can grow it owns a buffer from 0 on; and if it is closed it cannot be written.
pub Reachable-IsValid : (s : MemoryStream) → Reachable s → IsValid s
Reachable-IsValid s (allocated capacity _ e) = subst Makes e (alloc_stream-IsValid capacity)
Reachable-IsValid s (taken buffer index count writable visible _ e) =
    subst Makes e (from-IsValid buffer index count writable visible)
Reachable-IsValid s (called call t r) = run-IsValid call t (Reachable-IsValid t r)
