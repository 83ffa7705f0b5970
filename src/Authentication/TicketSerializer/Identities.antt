-- ===== src/Authentication/TicketSerializer/Identities.antt =====
-- TicketSerializer.ts over identities and their actors: what it writes, and that it reads it back.
use yohira.Common.{
  ℕ, zero, suc, ◌+◌, ◌^◌, ◌≤◌, ◌<◌, ◌≡◌, refl, Bool, true, false, List, [], ◌∷◌, ◌++◌, append_assoc,
  append-nil, length, length-append, lt→ltb, All, Option, none, some, arith, pos, ◌>>=◌, ◌>>◌, pure,
}
use yohira.Base.BinaryWriter.Emitting.{Emits->>}
use yohira.Base.BinaryReader.Taking.{Takes, Takes->>=, Takes-map}
use yohira.Base.RoundTrip.Numbers.{
  int32_bytes, Emits-int32, Takes-int32, boolean_bytes, Emits-boolean, Takes-boolean,
}
use yohira.Base.RoundTrip.SevenBit.{string_bytes, Emits-string, Takes-string}
use yohira.Base.RoundTrip.Chains.{Extends, Emits-Extends, Extends-pure, Extends->>, Takes-pure}
use yohira.Authentication.Entries.RoundTrip.{IsShort}
use yohira.Authentication.PropertiesSerializer.{or_empty}
use yohira.Authentication.TicketSerializer.{
  Claim, Identity, ClaimsIdentity, without_actor, with_actor, default_name_claim_type,
  default_role_claim_type, write_claims, write_bootstrap, write_fields, write_identity,
  write_identities, read_claims, read_counted_claims, read_bootstrap, read_fields, read_actor,
  read_identity, read_identities,
}
use yohira.Authentication.TicketSerializer.Claims.{
  IsClaim, IsText, claim_bytes, Extends-write_claim, Takes-read_claim, with_default_bytes,
  Emits-with_default, Takes-with_default,
}

claims_bytes : List Claim → List ℕ
claims_bytes [] = []
claims_bytes (c ∷ cs) = claim_bytes c ++ claims_bytes cs

Extends-write_claims :
    (cs : List Claim) → All IsClaim cs → Extends (write_claims cs) (claims_bytes cs)
unfolding write_claims claims_bytes
Extends-write_claims [] w = Extends-pure
Extends-write_claims (c ∷ cs) w =
    Extends->> (Extends-write_claim c w.0) (Extends-write_claims cs w.1)

Takes-read_claims :
    (before cs : List Claim)
    → All IsClaim cs
    → Takes (read_claims (length cs) before) (claims_bytes cs) (before ++ cs)
unfolding read_claims claims_bytes
Takes-read_claims before [] w = rw (append-nil before) (Takes-pure before)
Takes-read_claims before (c ∷ cs) w = rw (← append_assoc before (c ∷ []) cs) (
    Takes->>= (λ claim. read_claims (length cs) (before ++ claim ∷ [])) (Takes-read_claim c w.0)
      (Takes-read_claims (before ++ c ∷ []) cs w.1))

-- A type of authentication that is read back as it is: one that is there.
pub data IsAuthenticated : Option (List ℕ) → Type 0 where
  authenticated : (text : List ℕ) → IsShort text → IsAuthenticated (some text)

-- A bootstrap context that is read back as it is: none, or a text that is not empty.
pub data IsBootstrap : Option (List ℕ) → Type 0 where
  no_bootstrap : IsBootstrap none
  bootstrap : (c : ℕ) (text : List ℕ) → IsShort (c ∷ text) → IsBootstrap (some (c ∷ text))

bootstrap_bytes : Option (List ℕ) → List ℕ
bootstrap_bytes none = []
bootstrap_bytes (some text) = string_bytes text

abbrev is_some : Option (List ℕ) → Bool
is_some none = false
is_some (some text) = true

Extends-write_bootstrap :
    (o : Option (List ℕ))
    → IsBootstrap o
    → Extends (write_bootstrap o) (boolean_bytes (is_some o) ++ bootstrap_bytes o)
unfolding write_bootstrap bootstrap_bytes
Extends-write_bootstrap _ no_bootstrap = Emits-Extends (Emits-boolean false)
Extends-write_bootstrap _ (bootstrap c text h) =
    Emits-Extends (Emits->> (Emits-boolean true) (Emits-string (c ∷ text)))

Takes-read_bootstrap :
    (o : Option (List ℕ)) → IsBootstrap o → Takes (read_bootstrap (is_some o)) (bootstrap_bytes o) o
unfolding read_bootstrap bootstrap_bytes
Takes-read_bootstrap _ no_bootstrap = Takes-pure none
Takes-read_bootstrap _ (bootstrap c text h) = Takes-map some (Takes-string (c ∷ text) h)

pub record IsIdentity (i : Identity) : Type 0 where
  pub authentication : IsAuthenticated i.authentication_type
  pub claimed : All IsClaim i.claims
  pub few : length i.claims < 2 ^ 31
  pub context : IsBootstrap i.bootstrap_context

fields_bytes : Identity → List ℕ
fields_bytes i =
    string_bytes (or_empty i.authentication_type)
    ++ (with_default_bytes default_name_claim_type default_name_claim_type
        ++ (with_default_bytes default_role_claim_type default_role_claim_type
            ++ (int32_bytes (pos (length i.claims))
                ++ (claims_bytes i.claims
                    ++ (boolean_bytes (is_some i.bootstrap_context)
                        ++ bootstrap_bytes i.bootstrap_context)))))

name-IsText : IsText default_name_claim_type
unfolding yohira.Common.same_text
name-IsText = (ground arith, refl)

role-IsText : IsText default_role_claim_type
unfolding yohira.Common.same_text
role-IsText = (ground arith, refl)

module _ (i : Identity) (w : IsIdentity i) where
  Extends-write_fields : Extends (write_fields i) (fields_bytes i)
  unfolding write_fields fields_bytes
  Extends-write_fields =
      Extends->> (Emits-Extends (Emits-string (or_empty i.authentication_type))) (
        Extends->>
          (Emits-Extends (Emits-with_default default_name_claim_type default_name_claim_type))
          (Extends->>
            (Emits-Extends (Emits-with_default default_role_claim_type default_role_claim_type))
            (Extends->>
              (Emits-Extends
                (Emits-int32 (pos (length i.claims)) (lt→ltb (length i.claims) (2 ^ 31) w.few)))
              (Extends->> (Extends-write_claims i.claims w.claimed)
                (Extends-write_bootstrap i.bootstrap_context w.context)))))

  Takes-read_fields : Takes read_fields (fields_bytes i) i
  unfolding read_fields fields_bytes read_counted_claims
  Takes-read_fields = fields_of i.authentication_type w.authentication
    where
      fields_of :
          (o : Option (List ℕ))
          → IsAuthenticated o
          → Takes read_fields
              (fields_bytes (record i { authentication_type = o }))
              (record i { authentication_type = o })
      fields_of _ (authenticated text h) = Takes->>= _ (Takes-string text h) (
          Takes->>= _
            (Takes-with_default default_name_claim_type default_name_claim_type name-IsText)
            (Takes->>= _
              (Takes-with_default default_role_claim_type default_role_claim_type role-IsText)
              (Takes->>= _
                (Takes-int32 (pos (length i.claims)) (lt→ltb (length i.claims) (2 ^ 31) w.few))
                (Takes->>= _ (Takes-read_claims [] i.claims w.claimed) (
                  Takes->>= _ (Takes-boolean (is_some i.bootstrap_context)) (
                    Takes-map
                      (λ context. record i {
                        authentication_type = some text;
                        bootstrap_context = context;
                      })
                      (Takes-read_bootstrap i.bootstrap_context w.context)))))))

pub data IsClaimsIdentity : ClaimsIdentity → Type 0 where
  alone : (i : Identity) → IsIdentity i → IsClaimsIdentity (without_actor i)
  acted :
      (i : Identity) (a : ClaimsIdentity)
      → IsIdentity i
      → IsClaimsIdentity a
      → IsClaimsIdentity (with_actor i a)

identity_bytes : ClaimsIdentity → List ℕ
identity_bytes (without_actor i) = fields_bytes i ++ boolean_bytes false
identity_bytes (with_actor i a) = fields_bytes i ++ (boolean_bytes true ++ identity_bytes a)

Extends-write_identity :
    (d : ClaimsIdentity) → IsClaimsIdentity d → Extends (write_identity d) (identity_bytes d)
unfolding write_identity identity_bytes
Extends-write_identity _ (alone i w) =
    Extends->> (Extends-write_fields i w) (Emits-Extends (Emits-boolean false))
Extends-write_identity _ (acted i a w v) =
    Extends->> (Extends-write_fields i w)
      (Extends->> (Emits-Extends (Emits-boolean true)) (Extends-write_identity a v))

-- The bytes of an identity are turns enough for it and its actors.
Takes-read_identity :
    (fuel : ℕ) (d : ClaimsIdentity)
    → IsClaimsIdentity d
    → length (identity_bytes d) ≤ fuel
    → Takes (read_identity fuel) (identity_bytes d) d
unfolding read_identity read_actor identity_bytes
Takes-read_identity zero _ (alone i w) le =
    absurd (omega (arith, le, length-append (fields_bytes i) (boolean_bytes false)))
Takes-read_identity zero _ (acted i a w v) le =
    absurd
      (omega (arith, le, length-append (fields_bytes i) (boolean_bytes true ++ identity_bytes a)))
Takes-read_identity (suc fuel) _ (alone i w) le = Takes->>= _ (Takes-read_fields i w) (
    rw (← append-nil (boolean_bytes false)) (
      Takes->>= (read_actor (read_identity fuel) i) (Takes-boolean false)
        (Takes-pure (without_actor i))))
Takes-read_identity (suc fuel) _ (acted i a w v) le = Takes->>= _ (Takes-read_fields i w) (
    Takes->>= (read_actor (read_identity fuel) i) (Takes-boolean true) (
      Takes-map (with_actor i) (
        Takes-read_identity fuel a v (
          omega
            (arith, le, length-append (fields_bytes i) (boolean_bytes true ++ identity_bytes a))))))

pub identities_bytes : List ClaimsIdentity → List ℕ
identities_bytes [] = []
identities_bytes (d ∷ ds) = identity_bytes d ++ identities_bytes ds

pub Extends-write_identities :
    (ds : List ClaimsIdentity)
    → All IsClaimsIdentity ds
    → Extends (write_identities ds) (identities_bytes ds)
unfolding write_identities identities_bytes
Extends-write_identities [] w = Extends-pure
Extends-write_identities (d ∷ ds) w =
    Extends->> (Extends-write_identity d w.0) (Extends-write_identities ds w.1)

pub Takes-read_identities :
    (fuel : ℕ) (before ds : List ClaimsIdentity)
    → All IsClaimsIdentity ds
    → length (identities_bytes ds) ≤ fuel
    → Takes (read_identities fuel (length ds) before) (identities_bytes ds) (before ++ ds)
unfolding read_identities identities_bytes
Takes-read_identities fuel before [] w le = rw (append-nil before) (Takes-pure before)
Takes-read_identities fuel before (d ∷ ds) w le =
    let long = length-append (identity_bytes d) (identities_bytes ds) in
    rw (← append_assoc before (d ∷ []) ds) (
      Takes->>= (λ identity. read_identities fuel (length ds) (before ++ identity ∷ []))
        (Takes-read_identity fuel d w.0 (omega (arith, le, long)))
        (Takes-read_identities fuel (before ++ d ∷ []) ds w.1 (omega (arith, le, long))))
