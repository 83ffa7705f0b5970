-- ===== src/Authentication/SecureDataFormat.antt =====
-- packages/authentication/src/SecureDataFormat.ts, over the interfaces of IDataSerializer.ts and of
-- packages/data-protection.abstractions/src/IDataProtector.ts.
pub mod RoundTrip
use yohira.Common.{ℕ, List, [], ◌∷◌, Option, none, some, Result, ok, err, and_then}
use yohira.Base.MemoryStream.{Error}
use yohira.Authentication.TicketSerializer
use yohira.Authentication.TicketSerializer.{AuthenticationTicket}

pub record DataSerializer (T : Type 0) : Type 0 where
  pub serialize : T → Result Error (List ℕ)
  pub deserialize : List ℕ → Result Error (Option T)

-- `protect` and `unprotect` of a protector, which throw errors of their own.
pub record DataProtector (E : Type 0) : Type 0 where
  pub protect : List ℕ → Result E (List ℕ)
  pub unprotect : List ℕ → Result E (Option (List ℕ))

-- Node's `toString('base64url')` and `Buffer.from(text, 'base64url')`.
pub record Base64Url : Type 0 where
  pub encode : List ℕ → List ℕ
  pub decode : List ℕ → List ℕ

pub data FormatError (E : Type 0) : Type 0 where
  not_serialized : Error → FormatError E
  not_protected : E → FormatError E

module _ {T : Type 0} {E : Type 0} (serializer : DataSerializer T) (protector : DataProtector E)
    (create_protector : List ℕ → DataProtector E) (base64url : Base64Url) where
  -- `!!purpose`
  unfoldable pub protector_for : Option (List ℕ) → DataProtector E
  protector_for none = protector
  protector_for (some []) = protector
  protector_for (some (c ∷ purpose)) = create_protector (c ∷ purpose)

  unfoldable pub protect : T → Option (List ℕ) → Result (FormatError E) (List ℕ)
  protect input purpose =
      elim (serializer.serialize input) as (λ _. Result (FormatError E) (List ℕ)) [
        | err e ↦ err (not_serialized e)
        | ok user_data ↦
            elim ((protector_for purpose).protect user_data)
              as (λ _. Result (FormatError E) (List ℕ)) [
                | err e ↦ err (not_protected e)
                | ok protected_data ↦ ok (base64url.encode protected_data)
              ]
      ]

  -- What deserialize throws is caught.
  unfoldable pub unprotect_data : List ℕ → Option T
  unprotect_data user_data = elim (serializer.deserialize user_data) as (λ _. Option T) [
    | err e ↦ none
    | ok found ↦ found
  ]

  -- Every error is caught.
  unfoldable pub unprotect : Option (List ℕ) → Option (List ℕ) → Option T
  unprotect none purpose = none
  unprotect (some protected_text) purpose =
      elim ((protector_for purpose).unprotect (base64url.decode protected_text))
        as (λ _. Option T) [
          | err e ↦ none
          | ok found ↦ elim found as (λ _. Option T) [
            | none ↦ none
            | some user_data ↦ unprotect_data user_data
          ]
        ]

-- `TicketSerializer.default`
abbrev pub default_serializer : DataSerializer AuthenticationTicket
default_serializer = record {
  serialize = TicketSerializer.serialize;
  deserialize = TicketSerializer.deserialize;
}
