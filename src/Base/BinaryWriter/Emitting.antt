-- ===== src/Base/BinaryWriter/Emitting.antt =====
-- What a method of BinaryWriter appends: on a stream that can grow it succeeds, and the stream then
-- stands for the old bytes overwritten at the position by the ones named.
use yohira.Common.{
  ℕ, ◌+◌, ◌-◌, ◌≡◌, ap₂, ◌∙◌, true, List, ◌++◌, length, done, inl, arith, ◌>>=◌, ◌>>◌,
  length-append, get_or-append, list_ext, slice_whole,
}
use yohira.Base.MemoryStream.{M, MemoryStream}
use yohira.Base.MemoryStream.Invariant.{IsValid}
use yohira.Base.MemoryStream.Contents.{contents, overwrite, length-overwrite, get_or-overwrite}
use yohira.Base.MemoryStream.Refinement.{write-overwrite}
use yohira.Base.BinaryWriter.{emit}

pub record IsGrowable (s : MemoryStream) : Type 0 where
  pub valid : IsValid s
  pub opened : s.is_open ≡ true
  pub writing : s.writable ≡ true
  pub growing : s.expandable ≡ true

-- How a stream has changed when `bytes` were written at its position.
pub record Appended (bytes : List ℕ) (s t : MemoryStream) : Type 0 where
  pub growable : IsGrowable t
  pub holds : contents t ≡ overwrite (contents s) (s.position - s.origin) bytes
  pub moved : t.position ≡ s.position + length bytes
  pub based : t.origin ≡ s.origin

abbrev pub Emits : M (Unit {0}) → List ℕ → Type 0
Emits m bytes =
    (s : MemoryStream) → IsGrowable s → (t : MemoryStream) × (m s ≡ done tt t) × Appended bytes s t

overwrite-overwrite :
    (xs : List ℕ) (at : ℕ) (first second : List ℕ)
    → overwrite (overwrite xs at first) (at + length first) second
      ≡ overwrite xs at (first ++ second)
overwrite-overwrite xs at first second =
    let mid = overwrite xs at first in
    list_ext 0 _ _
      (omega (
        arith,
        length-overwrite xs at first,
        length-overwrite mid (at + length first) second,
        length-overwrite xs at (first ++ second),
        length-append first second,
      ))
      (λ j lt. ground (
        arith,
        get_or-overwrite xs at first j,
        get_or-overwrite mid (at + length first) second j,
        get_or-overwrite xs at (first ++ second) j,
        length-append first second,
        get_or-append first second (j - at) 0,
      ))

pub Emits-emit : (bytes : List ℕ) → Emits (emit bytes) bytes
unfolding emit
Emits-emit bytes s g =
    let n = length bytes in
    let (t, wrote, holds, moved, based, o, w, e, valid) =
      write-overwrite bytes 0 n s g.valid g.opened g.writing (omega arith) (inl g.growing) in
    (
      t,
      wrote,
      record {
        growable = record {
          valid = valid;
          opened = o ∙ g.opened;
          writing = w ∙ g.writing;
          growing = e ∙ g.growing;
        };
        holds = rw (slice_whole bytes) at holds;
        moved = moved;
        based = based;
      },
    )

pub Appended-trans :
    (first second : List ℕ) {s t u : MemoryStream}
    → IsGrowable s
    → Appended first s t
    → Appended second t u
    → Appended (first ++ second) s u
Appended-trans first second {s} {t} {u} g a b =
    let at = s.position - s.origin in
    let at' : t.position - t.origin ≡ at + length first =
      omega (arith, a.moved, a.based, g.valid.origin-le-position) in
    record {
      growable = b.growable;
      holds =
          b.holds
          ∙ ap₂ (λ xs k. overwrite xs k second) a.holds at'
          ∙ overwrite-overwrite (contents s) at first second;
      moved = omega (arith, a.moved, b.moved, length-append first second);
      based = b.based ∙ a.based;
    }

pub Emits->> :
    {m k : M (Unit {0})} {first second : List ℕ}
    → Emits m first
    → Emits k second
    → Emits (m >> k) (first ++ second)
Emits->> {first} {second} em ek s g =
    let (t, ran, a) = em s g in
    let (u, ran', b) = ek t a.growable in
    (u, rw (ran, ◌>>=◌) ran', Appended-trans first second g a b)
