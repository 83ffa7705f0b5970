-- ===== src/Base/RoundTrip/Chains.antt =====
-- Sequences of writes, and of reads, of any length.
use yohira.Common.{
  ℕ, ◌+◌, ◌≡◌, ap, refl, sym, ◌∙◌, List, [], ◌++◌, append_assoc, append-nil, done, thrown, Outcome,
  arith, ◌>>=◌, ◌>>◌, pure, subst,
}
use yohira.Base.MemoryStream.{M, Error, MemoryStream}
use yohira.Base.BinaryWriter.Emitting.{Emits, Emits->>}
use yohira.Base.BinaryReader.Taking.{Takes}

-- Behind any write, the action writes the bytes named.
abbrev pub Extends : M (Unit {0}) → List ℕ → Type 0
Extends k bytes =
    (m : M (Unit {0})) (first : List ℕ) → Emits m first → Emits (m >> k) (first ++ bytes)

pub Emits-Extends : {k : M (Unit {0})} {bytes : List ℕ} → Emits k bytes → Extends k bytes
Emits-Extends ek m first em = Emits->> em ek

same-Emits :
    {m k : M (Unit {0})} {bytes : List ℕ}
    → ((s : MemoryStream) → m s ≡ k s)
    → Emits m bytes
    → Emits k bytes
same-Emits e em s g = let (t, ran, a) = em s g in (t, sym (e s) ∙ ran, a)

pub Extends-pure : Extends (pure tt) []
Extends-pure m first em s g =
    let (t, ran, a) = em s g in (t, rw (ran, ◌>>=◌) refl, rw (append-nil first) a)

chain :
    (k l : M (Unit {0})) (o : Outcome Error MemoryStream (Unit {0}))
    → (elim (elim o as (λ _. Outcome Error MemoryStream (Unit {0})) [
      | done a s ↦ k s
      | thrown e s ↦ thrown e s
    ])
        as (λ _. Outcome Error MemoryStream (Unit {0})) [
          | done a s ↦ l s
          | thrown e s ↦ thrown e s
        ])
      ≡ (elim o as (λ _. Outcome Error MemoryStream (Unit {0})) [
        | done a s ↦ (k >> l) s
        | thrown e s ↦ thrown e s
      ])
chain k l (done a s) = refl
chain k l (thrown e s) = refl

pub Extends->> :
    {k l : M (Unit {0})} {first second : List ℕ}
    → Extends k first
    → Extends l second
    → Extends (k >> l) (first ++ second)
Extends->> {k} {l} {first} {second} ek el m before em =
    subst (Emits (m >> (k >> l))) (append_assoc before first second)
      (same-Emits (λ s. chain k l (m s)) (el (m >> k) (before ++ first) (ek m before em)))

pub Takes-pure : {A : Type 0} (a : A) → Takes (pure a) [] a
Takes-pure a s f =
    let same : s.position ≡ s.position + 0 = omega arith in
    ap (λ p. done a (record s { position = p })) same
