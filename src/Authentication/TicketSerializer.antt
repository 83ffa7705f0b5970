-- ===== src/Authentication/TicketSerializer.antt =====
-- packages/authentication/src/TicketSerializer.ts, with packages/base/src/Claim.ts and ClaimsIdentity.ts
-- as it uses them. The subject of a claim is the identity that holds it, and is not a field.
pub mod Claims
pub mod Identities
pub mod RoundTrip
use yohira.Common.{
  ℕ, zero, suc, Bool, true, false, List, [], ◌∷◌, ◌++◌, length, Option, none, some, Result, ℤ, pos,
  negsuc, ◌>>=◌, ◌>>◌, pure, throw, if◌then◌else◌, eqb_ℤ, same_text, codes,
}
use yohira.Base.MemoryStream.{M, Error, out_of_fuel}
use yohira.Base.BinaryWriter.{write_boolean, write_int32_le, write_string}
use yohira.Base.BinaryReader.{read_boolean, read_int32_le, read_string}
use yohira.Authentication.Memory.{to_memory, from_memory}
use yohira.Authentication.Entries.{write_entries, read_entries}
use yohira.Authentication.PropertiesSerializer
use yohira.Authentication.PropertiesSerializer.{AuthenticationProperties, or_empty}

-- A property's value can be undefined, against its type.
pub record Claim : Type 0 where
  pub type : List ℕ
  pub value : List ℕ
  pub value_type : List ℕ
  pub issuer : List ℕ
  pub original_issuer : List ℕ
  pub properties : List (List ℕ × Option (List ℕ))

abbrev pub default_issuer : List ℕ
default_issuer = codes "LOCAL AUTHORITY"

abbrev pub string_value_type : List ℕ
string_value_type = codes "http://www.w3.org/2001/XMLSchema#string"

abbrev pub default_name_claim_type : List ℕ
default_name_claim_type = codes "http://schemas.xmlsoap.org/ws/2005/05/identity/claims/name"

abbrev pub default_role_claim_type : List ℕ
default_role_claim_type = codes "http://schemas.microsoft.com/ws/2008/06/identity/claims/role"

-- `!text ? otherwise : text`
unfoldable pub or_default : List ℕ → List ℕ → List ℕ
or_default [] otherwise = otherwise
or_default (c ∷ text) otherwise = c ∷ text

-- The constructor, and the properties set then.
unfoldable pub new_claim :
    List ℕ → List ℕ → List ℕ → List ℕ → List ℕ → List (List ℕ × Option (List ℕ)) → Claim
new_claim type value value_type issuer original_issuer properties =
    let issued_by = or_default issuer default_issuer in
    record {
      type = type;
      value = value;
      value_type = or_default value_type string_value_type;
      issuer = issued_by;
      original_issuer = or_default original_issuer issued_by;
      properties = properties;
    }

-- The fields of an identity that are written. `nameClaimType` and `roleClaimType` are always the
-- defaults, since the constructor does not look at its arguments for them.
pub record Identity : Type 0 where
  pub authentication_type : Option (List ℕ)
  pub claims : List Claim
  pub bootstrap_context : Option (List ℕ)

pub data ClaimsIdentity : Type 0 where
  without_actor : Identity → ClaimsIdentity
  with_actor : Identity → ClaimsIdentity → ClaimsIdentity

-- `identities` are those of the ticket's principal.
pub record AuthenticationTicket : Type 0 where
  pub identities : List ClaimsIdentity
  pub properties : AuthenticationProperties
  pub authentication_scheme : List ℕ

abbrev pub default_string_placeholder : List ℕ
default_string_placeholder = 0 ∷ []

abbrev pub format_version : ℤ
format_version = pos 5

unfoldable pub write_with_default : List ℕ → List ℕ → M (Unit {0})
write_with_default value default_value =
    if same_text value default_value
    then write_string default_string_placeholder
    else write_string value

unfoldable pub write_claim : Claim → M (Unit {0})
write_claim claim = do
  write_with_default claim.type default_name_claim_type
  write_string claim.value
  write_with_default claim.value_type string_value_type
  write_with_default claim.issuer default_issuer
  write_with_default claim.original_issuer claim.issuer
  write_int32_le (pos (length claim.properties))
  write_entries or_empty claim.properties

unfoldable pub write_claims : List Claim → M (Unit {0})
write_claims [] = pure tt
write_claims (claim ∷ claims) = write_claim claim >> write_claims claims

-- `if (!!bootstrap)`
unfoldable pub write_bootstrap : Option (List ℕ) → M (Unit {0})
write_bootstrap none = write_boolean false
write_bootstrap (some []) = write_boolean false
write_bootstrap (some (c ∷ text)) = write_boolean true >> write_string (c ∷ text)

-- writeIdentity ahead of the actor.
unfoldable pub write_fields : Identity → M (Unit {0})
write_fields identity = do
  write_string (or_empty identity.authentication_type)
  write_with_default default_name_claim_type default_name_claim_type
  write_with_default default_role_claim_type default_role_claim_type
  write_int32_le (pos (length identity.claims))
  write_claims identity.claims
  write_bootstrap identity.bootstrap_context

unfoldable pub write_identity : ClaimsIdentity → M (Unit {0})
write_identity (without_actor identity) = write_fields identity >> write_boolean false
write_identity (with_actor identity actor) =
    write_fields identity >> (write_boolean true >> write_identity actor)

unfoldable pub write_identities : List ClaimsIdentity → M (Unit {0})
write_identities [] = pure tt
write_identities (identity ∷ identities) = write_identity identity >> write_identities identities

unfoldable pub write : AuthenticationTicket → M (Unit {0})
write ticket = do
  write_int32_le format_version
  write_string ticket.authentication_scheme
  write_int32_le (pos (length ticket.identities))
  write_identities ticket.identities
  PropertiesSerializer.write ticket.properties

unfoldable pub read_with_default : List ℕ → M (List ℕ)
read_with_default default_value = do
  value ← read_string
  pure (if same_text value default_string_placeholder then default_value else value)

-- As in PropertiesSerializer, the loop does not end for a negative count.
unfoldable pub read_properties : ℤ → M (List (List ℕ × Option (List ℕ)))
read_properties (pos count) = read_entries some count []
read_properties (negsuc n) = throw out_of_fuel

unfoldable pub read_claim : M Claim
read_claim = do
  type ← read_with_default default_name_claim_type
  value ← read_string
  value_type ← read_with_default string_value_type
  issuer ← read_with_default default_issuer
  original_issuer ← read_with_default issuer
  count ← read_int32_le
  properties ← read_properties count
  pure (new_claim type value value_type issuer original_issuer properties)

-- With so many claims left.
unfoldable pub read_claims : ℕ → List Claim → M (List Claim)
read_claims zero claims = pure claims
read_claims (suc left) claims = read_claim >>= λ claim. read_claims left (claims ++ claim ∷ [])

unfoldable pub read_counted_claims : ℤ → M (List Claim)
read_counted_claims (pos count) = read_claims count []
read_counted_claims (negsuc n) = throw out_of_fuel

unfoldable pub read_bootstrap : Bool → M (Option (List ℕ))
read_bootstrap true = do text ← read_string; pure (some text)
read_bootstrap false = pure none

unfoldable pub read_fields : M Identity
read_fields = do
  authentication_type ← read_string
  name_claim_type ← read_with_default default_name_claim_type
  role_claim_type ← read_with_default default_role_claim_type
  count ← read_int32_le
  claims ← read_counted_claims count
  has_bootstrap ← read_boolean
  bootstrap_context ← read_bootstrap has_bootstrap
  pure (record {
    authentication_type = some authentication_type;
    claims = claims;
    bootstrap_context = bootstrap_context;
  })

-- Behind the fields of an identity, where its actor is read by the action named.
unfoldable pub read_actor : M ClaimsIdentity → Identity → Bool → M ClaimsIdentity
read_actor read_next identity true = do actor ← read_next; pure (with_actor identity actor)
read_actor read_next identity false = pure (without_actor identity)

-- readIdentity, on fuel: a turn for the identity and one for each actor in it.
unfoldable pub read_identity : ℕ → M ClaimsIdentity
read_identity zero = throw out_of_fuel
read_identity (suc fuel) = do
  identity ← read_fields
  has_actor ← read_boolean
  read_actor (read_identity fuel) identity has_actor

-- With so many identities left.
unfoldable pub read_identities : ℕ → ℕ → List ClaimsIdentity → M (List ClaimsIdentity)
read_identities fuel zero identities = pure identities
read_identities fuel (suc left) identities =
    read_identity fuel >>= λ identity. read_identities fuel left (identities ++ identity ∷ [])

-- `properties` undefined is the constructor's default.
abbrev pub or_created : Option AuthenticationProperties → AuthenticationProperties
or_created none = record { items = [] }
or_created (some properties) = properties

unfoldable pub read_principal : ℕ → List ℕ → ℤ → M (Option AuthenticationTicket)
read_principal fuel scheme (negsuc n) = pure none
read_principal fuel scheme (pos count) = do
  identities ← read_identities fuel count []
  properties ← PropertiesSerializer.read
  pure (
      some (record {
        identities = identities;
        properties = or_created properties;
        authentication_scheme = scheme;
      }))

unfoldable pub read : ℕ → M (Option AuthenticationTicket)
read fuel = read_int32_le >>= λ version.
    if eqb_ℤ version format_version
    then (read_string >>= λ scheme. read_int32_le >>= λ count. read_principal fuel scheme count)
    else pure none

unfoldable pub serialize : AuthenticationTicket → Result Error (List ℕ)
serialize ticket = to_memory (write ticket)

-- An identity takes a byte at least, so that the bytes are turns enough.
unfoldable pub deserialize : List ℕ → Result Error (Option AuthenticationTicket)
deserialize input = from_memory (read (length input)) input
