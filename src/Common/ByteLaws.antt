-- ===== src/Common/ByteLaws.antt =====
-- What a buffer holds at each index after `copy`, `fill`, `subarray` and the copying loops.
use Prim.Native.Nat.{ℕ, zero, suc, ◌+◌, ◌-◌, ◌≤◌, ◌<◌, min}
use mathlib.Core.Path.{◌≡◌, refl, sym, ap, ap₂, ◌∙◌}
use mathlib.Core.Bool.{◌&&◌}
use mathlib.Core.Logic.{◌⊎◌}
use mathlib.Core.List.{List, [], ◌∷◌, ◌++◌}
use native.Mathlib.Omega.{arith}
use yohira.Common.Tests.{ltb, leb, if◌then◌else◌}
use yohira.Common.Lists.{
  length, get_or, set, take, drop, replicate, length-take, length-drop, length-replicate,
}
use yohira.Common.Bytes.{slice, alloc, blit, copy, copy_down}

module _ {ℓ} {A : Type ℓ} where
  pub list_ext :
      (d : A) (xs ys : List A)
      → length xs ≡ length ys
      → ((j : ℕ) → j < length xs → get_or xs j d ≡ get_or ys j d)
      → xs ≡ ys
  list_ext d [] [] e h = refl
  list_ext d [] (y ∷ ys) e h = absurd (omega arith)
  list_ext d (x ∷ xs) [] e h = absurd (omega arith)
  list_ext d (x ∷ xs) (y ∷ ys) e h =
      ap₂ ◌∷◌ (h 0 (omega arith)) (list_ext d xs ys (omega arith) (λ j lt. h (suc j) (omega arith)))

  pub get_or_beyond : (xs : List A) (j : ℕ) (d : A) → length xs ≤ j → get_or xs j d ≡ d
  get_or_beyond [] j d h = refl
  get_or_beyond (x ∷ xs) zero d h = absurd (omega arith)
  get_or_beyond (x ∷ xs) (suc j) d h = get_or_beyond xs j d (omega arith)

  pub get_or-replicate : (n : ℕ) (j : ℕ) (a : A) → get_or (replicate n a) j a ≡ a
  get_or-replicate zero j a = refl
  get_or-replicate (suc n) zero a = refl
  get_or-replicate (suc n) (suc j) a = get_or-replicate n j a

  pub get_or-replicate_lt : (n : ℕ) (j : ℕ) (a d : A) → j < n → get_or (replicate n a) j d ≡ a
  get_or-replicate_lt zero j a d h = absurd (omega arith)
  get_or-replicate_lt (suc n) zero a d h = refl
  get_or-replicate_lt (suc n) (suc j) a d h = get_or-replicate_lt n j a d (omega arith)

  pub get_or-take :
      (n : ℕ) (xs : List A) (j : ℕ) (d : A)
      → get_or (take n xs) j d ≡ (if ltb j n then get_or xs j d else d)
  get_or-take zero xs j d = ground arith
  get_or-take (suc n) [] j d = ground arith
  get_or-take (suc n) (x ∷ xs) zero d = ground arith
  get_or-take (suc n) (x ∷ xs) (suc j) d = ground (arith, get_or-take n xs j d)

  pub get_or-drop :
      (n : ℕ) (xs : List A) (j : ℕ) (d : A) → get_or (drop n xs) j d ≡ get_or xs (n + j) d
  get_or-drop zero xs j d = ground arith
  get_or-drop (suc n) [] j d = refl
  get_or-drop (suc n) (x ∷ xs) j d = ground (arith, get_or-drop n xs j d)

  pub get_or-append :
      (xs ys : List A) (j : ℕ) (d : A)
      → get_or (xs ++ ys) j d
        ≡ (if ltb j (length xs) then get_or xs j d else get_or ys (j - length xs) d)
  get_or-append [] ys j d = ground arith
  get_or-append (x ∷ xs) ys zero d = ground arith
  get_or-append (x ∷ xs) ys (suc j) d = ground (arith, get_or-append xs ys j d)

  pub length-set : (xs : List A) (i : ℕ) (v : A) → length (set xs i v) ≡ length xs
  length-set [] i v = refl
  length-set (x ∷ xs) zero v = refl
  length-set (x ∷ xs) (suc i) v = ap suc (length-set xs i v)

  pub length-blit : (xs : List A) (i : ℕ) (ys : List A) → length (blit xs i ys) ≡ length xs
  unfolding blit
  length-blit [] i ys = refl
  length-blit (x ∷ xs) (suc i) ys = ap suc (length-blit xs i ys)
  length-blit (x ∷ xs) zero [] = refl
  length-blit (x ∷ xs) zero (y ∷ ys) = ap suc (length-blit xs zero ys)

  pub get_or-blit :
      (xs : List A) (i : ℕ) (ys : List A) (j : ℕ) (d : A)
      → get_or (blit xs i ys) j d ≡ (
          if leb i j && (ltb j (i + length ys) && ltb j (length xs))
          then get_or ys (j - i) d
          else get_or xs j d)
  unfolding blit
  get_or-blit [] i ys j d = ground arith
  get_or-blit (x ∷ xs) (suc i) ys zero d = ground arith
  get_or-blit (x ∷ xs) (suc i) ys (suc j) d = ground (arith, get_or-blit xs i ys j d)
  get_or-blit (x ∷ xs) zero [] j d = ground arith
  get_or-blit (x ∷ xs) zero (y ∷ ys) zero d = ground arith
  get_or-blit (x ∷ xs) zero (y ∷ ys) (suc j) d = ground (arith, get_or-blit xs zero ys j d)

  pub get_or-set :
      (xs : List A) (i : ℕ) (v : A) (j : ℕ) (d : A)
      → get_or (set xs i v) j d
        ≡ (if leb i j && (leb j i && ltb j (length xs)) then v else get_or xs j d)
  get_or-set [] i v j d = ground arith
  get_or-set (x ∷ xs) zero v zero d = ground arith
  get_or-set (x ∷ xs) zero v (suc j) d = ground arith
  get_or-set (x ∷ xs) (suc i) v zero d = ground arith
  get_or-set (x ∷ xs) (suc i) v (suc j) d = ground (arith, get_or-set xs i v j d)

  pub length-slice : (xs : List A) (a b : ℕ) → length (slice xs a b) ≡ min (b - a) (length xs - a)
  length-slice xs a b = omega (arith, length-take (b - a) (drop a xs), length-drop a xs)

  pub get_or-slice :
      (xs : List A) (a b j : ℕ) (d : A)
      → get_or (slice xs a b) j d ≡ (if ltb j (b - a) then get_or xs (a + j) d else d)
  get_or-slice xs a b j d =
      ground (arith, get_or-take (b - a) (drop a xs) j d, get_or-drop a xs j d)

pub length-alloc : (n : ℕ) → length (alloc n) ≡ n
length-alloc n = length-replicate n 0

pub get_or-alloc : (n j : ℕ) → get_or (alloc n) j 0 ≡ 0
get_or-alloc n j = get_or-replicate n j 0

pub length-copy_down :
    (n : ℕ) (t : List ℕ) (at : ℕ) (s : List ℕ) (start : ℕ)
    → length (copy_down n t at s start) ≡ length t
unfolding copy_down
length-copy_down zero t at s start = refl
length-copy_down (suc n) t at s start = omega (
  arith,
  length-copy_down n (set t (at + n) (get_or s (start + n) 0)) at s start,
  length-set t (at + n) (get_or s (start + n) 0),
)

pub get_or-copy_down :
    (n : ℕ) (t : List ℕ) (at : ℕ) (s : List ℕ) (start j : ℕ)
    → get_or (copy_down n t at s start) j 0 ≡ (
        if leb at j && (ltb j (at + n) && ltb j (length t))
        then get_or s (start + (j - at)) 0
        else get_or t j 0)
unfolding copy_down
get_or-copy_down zero t at s start j = ground arith
get_or-copy_down (suc n) t at s start j =
    let v = get_or s (start + n) 0 in
    ground (
      arith,
      get_or-copy_down n (set t (at + n) v) at s start j,
      get_or-set t (at + n) v j 0,
      length-set t (at + n) v,
    )

-- The loop for short copies does what `copy` does for the long ones.
pub copy_down-eq-copy :
    (n : ℕ) (t : List ℕ) (at : ℕ) (s : List ℕ) (start : ℕ)
    → start + n ≤ length s
    → copy_down n t at s start ≡ copy s t at start (start + n)
copy_down-eq-copy n t at s start h =
    list_ext 0 _ _ (length-copy_down n t at s start ∙ sym (length-blit t at _)) (λ j lt. ground (
      arith,
      get_or-copy_down n t at s start j,
      get_or-blit t at (slice s start (start + n)) j 0,
      get_or-slice s start (start + n) (j - at) 0,
      length-slice s start (start + n),
    ))

-- Zeros at the end are what a read out of range gives.
pub get_or-pad : (xs : List ℕ) (n j : ℕ) → get_or (xs ++ alloc n) j 0 ≡ get_or xs j 0
get_or-pad [] n j = get_or-alloc n j
get_or-pad (x ∷ xs) n zero = refl
get_or-pad (x ∷ xs) n (suc j) = get_or-pad xs n j

-- What a copy of a whole piece leaves at each index.
pub get_or-copy :
    (s t : List ℕ) (at start n j : ℕ)
    → start + n ≤ length s
    → at + n ≤ length t
    → get_or (copy s t at start (start + n)) j 0
      ≡ (if leb at j && ltb j (at + n) then get_or s (start + (j - at)) 0 else get_or t j 0)
get_or-copy s t at start n j h k = ground (
  arith,
  get_or-blit t at (slice s start (start + n)) j 0,
  get_or-slice s start (start + n) (j - at) 0,
  length-slice s start (start + n),
)

-- A piece of a piece.
pub slice-slice :
    (xs : List ℕ) (a b p n : ℕ)
    → a ≤ p
    → (p + n ≤ b) ⊎ (n ≡ 0)
    → b ≤ length xs
    → slice (slice xs a b) (p - a) (p - a + n) ≡ slice xs p (p + n)
slice-slice xs a b p n h k m =
    list_ext 0 _ _
      (omega (
        arith,
        length-slice (slice xs a b) (p - a) (p - a + n),
        length-slice xs a b,
        length-slice xs p (p + n),
      ))
      (λ j lt. ground (
        arith,
        lt,
        length-slice (slice xs a b) (p - a) (p - a + n),
        length-slice xs a b,
        get_or-slice (slice xs a b) (p - a) (p - a + n) j 0,
        get_or-slice xs a b (p - a + j) 0,
        get_or-slice xs p (p + n) j 0,
      ))

-- A copy over the whole of a buffer leaves the bytes copied.
pub blit_whole : (t bytes : List ℕ) → length t ≡ length bytes → blit t 0 bytes ≡ bytes
blit_whole t bytes e =
    list_ext 0 _ _ (length-blit t 0 bytes ∙ e)
      (λ j lt. ground (arith, lt, length-blit t 0 bytes, get_or-blit t 0 bytes j 0))

-- What was written is read back.
pub slice-blit :
    (t bytes : List ℕ) (at : ℕ)
    → at + length bytes ≤ length t
    → slice (blit t at bytes) at (at + length bytes) ≡ bytes
slice-blit t bytes at h =
    list_ext 0 _ _
      (omega (arith, length-slice (blit t at bytes) at (at + length bytes), length-blit t at bytes))
      (λ j lt. ground (
        arith,
        lt,
        length-slice (blit t at bytes) at (at + length bytes),
        length-blit t at bytes,
        get_or-slice (blit t at bytes) at (at + length bytes) j 0,
        get_or-blit t at bytes (at + j) 0,
      ))

pub blit_nil {ℓ} : {A : Type ℓ} (xs : List A) (i : ℕ) → blit xs i [] ≡ xs
unfolding blit
blit_nil [] i = refl
blit_nil (x ∷ xs) zero = refl
blit_nil (x ∷ xs) (suc i) = ap (◌∷◌ x) (blit_nil xs i)

pub slice_whole : (xs : List ℕ) → slice xs 0 (0 + length xs) ≡ xs
slice_whole xs = list_ext 0 _ _ (omega (arith, length-slice xs 0 (0 + length xs))) (λ j lt.
    ground (arith, lt, length-slice xs 0 (0 + length xs), get_or-slice xs 0 (0 + length xs) j 0))

-- Two writes, the second behind the first, are one.
pub blit_twice {ℓ} :
    {A : Type ℓ} (t xs ys : List A) → blit (blit t 0 xs) (length xs) ys ≡ blit t 0 (xs ++ ys)
unfolding blit
blit_twice t [] ys = ap (λ u. blit u 0 ys) (blit_nil t 0)
blit_twice [] (x ∷ xs) ys = refl
blit_twice (z ∷ t) (x ∷ xs) ys = ap (◌∷◌ x) (blit_twice t xs ys)

pub take-blit {ℓ} :
    {A : Type ℓ} (t xs : List A) → length xs ≤ length t → take (length xs) (blit t 0 xs) ≡ xs
unfolding blit
take-blit [] [] h = refl
take-blit (y ∷ t) [] h = refl
take-blit [] (x ∷ xs) h = ground arith
take-blit (y ∷ t) (x ∷ xs) h = ap (◌∷◌ x) (take-blit t xs (omega (arith, h)))
