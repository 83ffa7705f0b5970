-- ===== src/Authentication/TicketSerializer/Claims.antt =====
-- TicketSerializer.ts over claims: what it writes, and that it reads it back.
use yohira.Common.{
  ℕ, ◌^◌, ◌<◌, ◌≡◌, refl, false, List, [], ◌∷◌, ◌++◌, length, lt→ltb, arith, pos, some,
  if◌then◌else◌, same_text, same_text-eq, Bool-cases, inl, inr, subst,
}
use yohira.Base.BinaryWriter.Emitting.{Emits}
use yohira.Base.BinaryReader.Taking.{Takes, Takes->>=, Takes-map}
use yohira.Base.RoundTrip.Numbers.{int32_bytes, Emits-int32, Takes-int32}
use yohira.Base.RoundTrip.SevenBit.{string_bytes, Emits-string, Takes-string}
use yohira.Base.RoundTrip.Chains.{Extends, Emits-Extends, Extends->>}
use yohira.Authentication.Entries.RoundTrip.{
  IsShort, AreEntries, HasDistinctKeys, entries_bytes, Extends-write_entries, Takes-read_entries,
}
use yohira.Authentication.PropertiesSerializer.{or_empty}
use yohira.Authentication.TicketSerializer.{
  Claim, new_claim, or_default, default_issuer, string_value_type, default_name_claim_type,
  default_string_placeholder, write_with_default, write_claim, read_with_default, read_properties,
  read_claim,
}

-- A string that is not taken for the placeholder of a default.
abbrev pub IsText : List ℕ → Type 0
IsText text = IsShort text × (same_text text default_string_placeholder ≡ false)

pub with_default_bytes : List ℕ → List ℕ → List ℕ
with_default_bytes value default_value =
    string_bytes (if same_text value default_value then default_string_placeholder else value)

module _ (value default_value : List ℕ) where
  pub Emits-with_default :
      Emits (write_with_default value default_value) (with_default_bytes value default_value)
  unfolding write_with_default with_default_bytes
  Emits-with_default = elim (Bool-cases (same_text value default_value)) [
    | inl p ↦ rw p (Emits-string default_string_placeholder)
    | inr p ↦ rw p (Emits-string value)
  ]

  pub Takes-with_default :
      IsText value
      → Takes (read_with_default default_value) (with_default_bytes value default_value) value
  unfolding read_with_default with_default_bytes same_text
  Takes-with_default h =
      let choose =
        λ (v : List ℕ). if same_text v default_string_placeholder then default_value else v in
      elim (Bool-cases (same_text value default_value)) [
        | inl p ↦
            rw (p, same_text-eq value default_value p)
              (Takes-map choose (Takes-string default_string_placeholder (ground arith)))
        | inr p ↦
            let kept : choose value ≡ value = rw h.1 refl in
            rw p (
              subst (Takes _ (string_bytes value)) kept (Takes-map choose (Takes-string value h.0)))
      ]

-- A claim as its constructor makes it, with strings that can be written, and properties with distinct
-- keys and without undefined values.
pub record IsClaim (c : Claim) : Type 0 where
  pub typed : IsText c.type
  pub valued : IsShort c.value
  pub value_typed : IsText c.value_type × (0 < length c.value_type)
  pub issued : IsText c.issuer × (0 < length c.issuer)
  pub first_issued : IsText c.original_issuer × (0 < length c.original_issuer)
  pub entries : AreEntries or_empty some c.properties
  pub distinct : HasDistinctKeys [] c.properties
  pub few : length c.properties < 2 ^ 31

pub claim_bytes : Claim → List ℕ
claim_bytes c =
    with_default_bytes c.type default_name_claim_type
    ++ (string_bytes c.value
        ++ (with_default_bytes c.value_type string_value_type
            ++ (with_default_bytes c.issuer default_issuer
                ++ (with_default_bytes c.original_issuer c.issuer
                    ++ (int32_bytes (pos (length c.properties))
                        ++ entries_bytes or_empty c.properties)))))

or_default-filled : (text otherwise : List ℕ) → 0 < length text → or_default text otherwise ≡ text
unfolding or_default
or_default-filled [] otherwise h = absurd (omega (arith, h))
or_default-filled (c ∷ text) otherwise h = refl

new_claim_same :
    (c : Claim)
    → IsClaim c
    → new_claim c.type c.value c.value_type c.issuer c.original_issuer c.properties ≡ c
unfolding new_claim
new_claim_same c w =
    rw
      (
        or_default-filled c.value_type string_value_type w.value_typed.1,
        or_default-filled c.issuer default_issuer w.issued.1,
        or_default-filled c.original_issuer c.issuer w.first_issued.1,
      )
      refl

module _ (c : Claim) (w : IsClaim c) where
  pub Extends-write_claim : Extends (write_claim c) (claim_bytes c)
  unfolding write_claim claim_bytes
  Extends-write_claim =
      Extends->> (Emits-Extends (Emits-with_default c.type default_name_claim_type)) (
        Extends->> (Emits-Extends (Emits-string c.value)) (
          Extends->> (Emits-Extends (Emits-with_default c.value_type string_value_type)) (
            Extends->> (Emits-Extends (Emits-with_default c.issuer default_issuer)) (
              Extends->> (Emits-Extends (Emits-with_default c.original_issuer c.issuer)) (
                Extends->>
                  (Emits-Extends (
                    Emits-int32 (pos (length c.properties))
                      (lt→ltb (length c.properties) (2 ^ 31) w.few)))
                  (Extends-write_entries or_empty c.properties))))))

  pub Takes-read_claim : Takes read_claim (claim_bytes c) c
  unfolding read_claim claim_bytes read_properties
  Takes-read_claim =
      let made = new_claim_same c w in
      let make = new_claim c.type c.value c.value_type c.issuer c.original_issuer in
      Takes->>= _ (Takes-with_default c.type default_name_claim_type w.typed) (
        Takes->>= _ (Takes-string c.value w.valued) (
          Takes->>= _ (Takes-with_default c.value_type string_value_type w.value_typed.0) (
            Takes->>= _ (Takes-with_default c.issuer default_issuer w.issued.0) (
              Takes->>= _ (Takes-with_default c.original_issuer c.issuer w.first_issued.0) (
                Takes->>= _
                  (Takes-int32 (pos (length c.properties))
                    (lt→ltb (length c.properties) (2 ^ 31) w.few))
                  (subst (Takes _ (entries_bytes or_empty c.properties)) made (
                    Takes-map make
                      (Takes-read_entries or_empty some [] c.properties w.entries w.distinct))))))))
