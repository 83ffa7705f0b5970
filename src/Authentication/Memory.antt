-- ===== src/Authentication/Memory.antt =====
-- How the serializers of packages/authentication/src run a write and a read: over a MemoryStream of their
-- own, which they turn into a Buffer, or make of one.
pub mod Laws
use yohira.Common.{ℕ, List, length, true, false, Result, ok, err, and_then, done, thrown, pos}
use yohira.Base.MemoryStream.{M, Error, MemoryStream, alloc_stream, from, to_buffer}

-- `using(MemoryStream.alloc(), (memory) => { …; return memory.toBuffer(); })`
unfoldable pub to_memory : M (Unit {0}) → Result Error (List ℕ)
to_memory write = and_then (alloc_stream (pos 0)) λ memory.
    elim (write memory) as (λ _. Result Error (List ℕ)) [
      | done _ s ↦ ok (to_buffer s)
      | thrown e s ↦ err e
    ]

-- `using(MemoryStream.from(data, 0, data.length), (memory) => …)`
unfoldable pub from_memory : {A : Type 0} → M A → List ℕ → Result Error A
from_memory {A} read input =
    and_then (from input (pos 0) (pos (length input)) true false)
      λ memory. elim (read memory) as (λ _. Result Error A) [ done a s ↦ ok a | thrown e s ↦ err e ]
