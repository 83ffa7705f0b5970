-- ===== src/Base/BinaryReader/Taking.antt =====
-- What a method of BinaryReader takes: where the bytes named stand at the stream's position, it
-- returns the value named and moves behind them.
use yohira.Common.{
  ℕ, ◌+◌, ◌-◌, ◌≡◌, sym, ap, ◌∙◌, true, List, ◌++◌, length, done, arith, ◌>>=◌, pure, slice, alloc,
  blit, length-append, length-alloc, length-drop, drop, drop-drop, drop-append, take-append,
  append_assoc, blit_whole,
}
use yohira.Base.MemoryStream.{M, MemoryStream}
use yohira.Base.MemoryStream.Invariant.{IsValid, IsValid-at}
use yohira.Base.MemoryStream.Contents.{contents}
use yohira.Base.MemoryStream.Reading.{available, read-contents}
use yohira.Base.BinaryReader.{read_buffer}

abbrev pub skip : ℕ → MemoryStream → MemoryStream
skip n s = record s { position = s.position + n }

-- `bytes` stand at the stream's position.
pub record Faces (bytes : List ℕ) (s : MemoryStream) : Type 0 where
  pub valid : IsValid s
  pub opened : s.is_open ≡ true
  pub rest : List ℕ
  pub shows : drop (s.position - s.origin) (contents s) ≡ bytes ++ rest

abbrev pub Takes : {A : Type 0} → M A → List ℕ → A → Type 0
Takes m bytes a = (s : MemoryStream) → Faces bytes s → m s ≡ done a (skip (length bytes) s)

module _ {bytes : List ℕ} {s : MemoryStream} (f : Faces bytes s) where
  abbrev at : ℕ
  at = s.position - s.origin

  faced : slice (contents s) at (at + length bytes) ≡ bytes
  faced =
      let size : at + length bytes - at ≡ length bytes = omega arith in
      rw (size, f.shows) (take-append bytes f.rest)

  all_available : available s (length bytes) ≡ length bytes
  all_available =
      omega (arith, length-drop at (contents s), ap length f.shows, length-append bytes f.rest)

pub Takes-read_buffer : (bytes : List ℕ) → Takes (read_buffer (length bytes)) bytes bytes
unfolding read_buffer
Takes-read_buffer bytes s f =
    let n = length bytes in
    let found =
      rw (all_available f) at
        (read-contents (alloc n) 0 n s f.valid f.opened (omega (arith, length-alloc n))) in
    rw (found, ◌>>=◌)
      (ap (λ r. done r (skip n s))
        (ap (blit (alloc n) 0) (faced f) ∙ blit_whole (alloc n) bytes (length-alloc n)))

-- Where two pieces stand one behind the other, so does each.
Faces-left : (first second : List ℕ) {s : MemoryStream} → Faces (first ++ second) s → Faces first s
Faces-left first second f = record {
  valid = f.valid;
  opened = f.opened;
  rest = second ++ f.rest;
  shows = f.shows ∙ append_assoc first second f.rest;
}

Faces-right :
    (first second : List ℕ) {s : MemoryStream}
    → Faces (first ++ second) s
    → Faces second (skip (length first) s)
Faces-right first second {s} f = record {
  valid =
      IsValid-at (s.position + length first) s f.valid (omega (arith, f.valid.origin-le-position));
  opened = f.opened;
  rest = f.rest;
  shows =
      let at = s.position - s.origin in
      let at' : s.position + length first - s.origin ≡ at + length first =
        omega (arith, f.valid.origin-le-position) in
      ap (λ k. drop k (contents s)) at'
      ∙ sym (drop-drop at (length first) (contents s))
      ∙ ap (drop (length first)) (f.shows ∙ append_assoc first second f.rest)
      ∙ drop-append first (second ++ f.rest);
}

pub Takes->>= :
    {A B : Type 0} {m : M A} (k : A → M B) {first second : List ℕ} {a : A} {b : B}
    → Takes m first a
    → Takes (k a) second b
    → Takes (m >>= k) (first ++ second) b
Takes->>= k {first} {second} {b} tm tk s f =
    rw (tm s (Faces-left first second f), ◌>>=◌)
      (tk (skip (length first) s) (Faces-right first second f)
        ∙ ap (λ p. done b (record s { position = p })) (omega (arith, length-append first second)))

-- A value computed from what was read.
pub Takes-map :
    {A B : Type 0} {m : M A} (f : A → B) {bytes : List ℕ} {a : A}
    → Takes m bytes a
    → Takes (m >>= λ x. pure (f x)) bytes (f a)
Takes-map f tm s g = rw (tm s g, ◌>>=◌)
