-- ===== src/Authentication/SecureDataFormat/RoundTrip.antt =====
-- SecureDataFormat.ts gives back what it protects, and tickets are among it.
use yohira.Common.{ℕ, ◌≡◌, refl, List, [], ◌∷◌, Option, none, some, ok}
use yohira.Authentication.TicketSerializer.{AuthenticationTicket}
use yohira.Authentication.TicketSerializer.RoundTrip.{IsTicket, serialized_ticket}
use yohira.Authentication.SecureDataFormat.{
  DataSerializer, DataProtector, Base64Url, protector_for, protect, unprotect, unprotect_data,
  default_serializer,
}

-- What is protected is given back, whatever bytes they are.
pub record Protects {E : Type 0} (p : DataProtector E) : Type 0 where
  pub succeeds : (bytes : List ℕ) → (b : List ℕ) × (p.protect bytes ≡ ok b)
  pub gives_back : (bytes b : List ℕ) → p.protect bytes ≡ ok b → p.unprotect b ≡ ok (some bytes)

pub record IsEncoding (c : Base64Url) : Type 0 where
  pub decoded : (bytes : List ℕ) → c.decode (c.encode bytes) ≡ bytes

-- The value is serialized, and deserialized as it was.
abbrev pub Serializes : {T : Type 0} → DataSerializer T → T → Type 0
Serializes s x = (bytes : List ℕ) × (s.serialize x ≡ ok bytes) × (s.deserialize bytes ≡ ok (some x))

module _ {T : Type 0} {E : Type 0} (serializer : DataSerializer T) (protector : DataProtector E)
    (create_protector : List ℕ → DataProtector E) (base64url : Base64Url) where
  chosen-Protects :
      Protects protector
      → ((purpose : List ℕ) → Protects (create_protector purpose))
      → (purpose : Option (List ℕ))
      → Protects (protector_for serializer protector create_protector base64url purpose)
  unfolding protector_for
  chosen-Protects p q none = p
  chosen-Protects p q (some []) = p
  chosen-Protects p q (some (c ∷ purpose)) = q (c ∷ purpose)

  unprotect-protect_data :
      Protects protector
      → ((purpose : List ℕ) → Protects (create_protector purpose))
      → IsEncoding base64url
      → (x : T) (purpose : Option (List ℕ)) → Serializes serializer x
      → (text : List ℕ) × (protect serializer protector create_protector base64url x purpose
          ≡ ok text)
        × (unprotect serializer protector create_protector base64url (some text) purpose ≡ some x)
  unfolding protect unprotect unprotect_data
  unprotect-protect_data p q c x purpose (bytes, written, read) =
      let chosen = chosen-Protects p q purpose in
      let (b, hidden) = chosen.succeeds bytes in
      (
        base64url.encode b,
        rw (written, hidden, protect) refl,
        rw (c.decoded b, chosen.gives_back bytes b hidden, read, unprotect, unprotect_data) refl,
      )

-- For a protector that gives back what it protects, whether for a purpose or not, and an encoding that
-- can be decoded: unprotect returns the ticket from the text that protect made of it, for the same
-- purpose. The ticket's strings, lists and maps are shorter than 2 ^ 31; every identity has an
-- authentication type, and a bootstrap context, if any, that is not empty; no claim has the placeholder
-- of a default for its type, value type or issuers, and none of the last three is empty; the maps of
-- properties have distinct keys and no undefined values.
pub unprotect-protect :
    {E : Type 0} (protector : DataProtector E) (create_protector : List ℕ → DataProtector E)
    (base64url : Base64Url)
    → Protects protector
    → ((purpose : List ℕ) → Protects (create_protector purpose))
    → IsEncoding base64url
    → (t : AuthenticationTicket) (purpose : Option (List ℕ)) → IsTicket t
    → (text : List ℕ) × (protect default_serializer protector create_protector base64url t purpose
        ≡ ok text)
      × (unprotect default_serializer protector create_protector base64url (some text) purpose
          ≡ some t)
unprotect-protect protector create_protector base64url p q c t purpose w =
    unprotect-protect_data default_serializer protector create_protector base64url p q c t purpose
      (serialized_ticket t w)
