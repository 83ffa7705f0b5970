-- ===== src/Authentication/TicketSerializer/RoundTrip.antt =====
-- TicketSerializer.ts reads what it writes.
use yohira.Common.{
  ℕ, ◌^◌, ◌≤◌, ◌<◌, ◌≡◌, refl, List, [], ◌++◌, length, length-append, lt→ltb, All, some, ok,
  and_then, arith, pos,
}
use yohira.Base.BinaryWriter.Emitting.{Emits}
use yohira.Base.BinaryReader.Taking.{Takes, Takes->>=, Takes-map}
use yohira.Base.RoundTrip.Numbers.{int32_bytes, Emits-int32, Takes-int32}
use yohira.Base.RoundTrip.SevenBit.{string_bytes, Emits-string, Takes-string}
use yohira.Base.RoundTrip.Chains.{Emits-Extends, Extends->>}
use yohira.Authentication.Memory.Laws.{to_memory-Emits, from_memory-Takes}
use yohira.Authentication.Entries.RoundTrip.{IsShort}
use yohira.Authentication.PropertiesSerializer.RoundTrip.{
  IsProperties, properties_bytes, Emits-write, Takes-read,
}
use yohira.Authentication.TicketSerializer.{
  AuthenticationTicket, format_version, or_created, write, read, read_principal, serialize,
  deserialize,
}
use yohira.Authentication.TicketSerializer.Identities.{
  IsClaimsIdentity, identities_bytes, Extends-write_identities, Takes-read_identities,
}

pub record IsTicket (t : AuthenticationTicket) : Type 0 where
  pub identified : All IsClaimsIdentity t.identities
  pub few : length t.identities < 2 ^ 31
  pub scheme : IsShort t.authentication_scheme
  pub stored : IsProperties t.properties

principal_bytes : AuthenticationTicket → List ℕ
principal_bytes t = identities_bytes t.identities ++ properties_bytes t.properties

ticket_bytes : AuthenticationTicket → List ℕ
ticket_bytes t =
    int32_bytes format_version
    ++ (string_bytes t.authentication_scheme
        ++ (int32_bytes (pos (length t.identities)) ++ principal_bytes t))

module _ (t : AuthenticationTicket) (w : IsTicket t) where
  Emits-write_ticket : Emits (write t) (ticket_bytes t)
  unfolding write ticket_bytes principal_bytes
  Emits-write_ticket =
      Extends->> (Emits-Extends (Emits-string t.authentication_scheme))
        (Extends->>
          (Emits-Extends
            (Emits-int32 (pos (length t.identities)) (lt→ltb (length t.identities) (2 ^ 31) w.few)))
          (Extends->> (Extends-write_identities t.identities w.identified)
            (Emits-Extends (Emits-write t.properties w.stored))))
        _ _ (Emits-int32 format_version refl)

  Takes-read_principal :
      (fuel : ℕ)
      → length (principal_bytes t) ≤ fuel
      → Takes
          (read_principal fuel t.authentication_scheme (pos (length t.identities)))
          (principal_bytes t)
          (some t)
  unfolding read_principal principal_bytes
  Takes-read_principal fuel le =
      let long = length-append (identities_bytes t.identities) (properties_bytes t.properties) in
      Takes->>= _
        (Takes-read_identities fuel [] t.identities w.identified (omega (arith, le, long)))
        (Takes-map (λ p. some (record t { properties = or_created p }))
          (Takes-read t.properties w.stored))

  Takes-read_ticket :
      (fuel : ℕ) → length (ticket_bytes t) ≤ fuel → Takes (read fuel) (ticket_bytes t) (some t)
  unfolding read ticket_bytes
  Takes-read_ticket fuel le =
      let size = int32_bytes (pos (length t.identities)) in
      let body = principal_bytes t in
      let scheme = string_bytes t.authentication_scheme in
      let shorter : length body ≤ fuel = omega (
        arith,
        le,
        length-append (int32_bytes format_version) (scheme ++ (size ++ body)),
        length-append scheme (size ++ body),
        length-append size body,
      ) in
      Takes->>= _ (Takes-int32 format_version refl) (
        Takes->>= _ (Takes-string t.authentication_scheme w.scheme) (
          Takes->>= _
            (Takes-int32 (pos (length t.identities)) (lt→ltb (length t.identities) (2 ^ 31) w.few))
            (Takes-read_principal fuel shorter)))

-- What serialize writes, deserialize reads.
pub serialized_ticket :
    (t : AuthenticationTicket)
    → IsTicket t
    → (bytes : List ℕ) × (serialize t ≡ ok bytes) × (deserialize bytes ≡ ok (some t))
unfolding serialize deserialize
serialized_ticket t w =
    let bytes = ticket_bytes t in
    (
      bytes,
      to_memory-Emits (write t) bytes (Emits-write_ticket t w),
      from_memory-Takes (read (length bytes)) bytes (some t)
          (Takes-read_ticket t w (length bytes) (omega arith)),
    )

-- For a ticket whose strings, lists and maps are shorter than 2 ^ 31, where every identity has an
-- authentication type and, if it has a bootstrap context, one that is not empty; where no claim has the
-- placeholder of a default for its type, value type or issuers, and none of the last three is empty;
-- and where the maps of properties have distinct keys and no undefined values: deserialize returns what
-- was serialized, identities with their claims and actors and the properties, and its fuel is enough.
pub deserialize-serialize_ticket :
    (t : AuthenticationTicket) → IsTicket t → and_then (serialize t) deserialize ≡ ok (some t)
deserialize-serialize_ticket t w =
    let (bytes, written, found) = serialized_ticket t w in rw written found
