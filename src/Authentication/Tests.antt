-- ===== src/Authentication/Tests.antt =====
-- Runs of the serializers.
use yohira.Common.{
  ℕ, ◌++◌, ◌==◌, Bool, true, ap, Result, err, if◌then◌else◌, ◌≡◌, refl, List, [], ◌∷◌, Option, none,
  some, ok, and_then, codes, arith,
}
use yohira.Common
use yohira.Authentication.PropertiesSerializer
use yohira.Authentication.PropertiesSerializer.{AuthenticationProperties}
use yohira.Authentication.PropertiesSerializer.RoundTrip.{IsProperties, deserialize-serialize}
use yohira.Authentication.TicketSerializer
use yohira.Authentication.TicketSerializer.{
  Claim, Identity, ClaimsIdentity, without_actor, with_actor, AuthenticationTicket, default_issuer,
  string_value_type, default_name_claim_type,
}
use yohira.Authentication.TicketSerializer.Claims.{IsClaim}
use yohira.Authentication.TicketSerializer.Identities.{
  authenticated, no_bootstrap, bootstrap, alone, acted,
}
use yohira.Authentication.SecureDataFormat.{
  DataProtector, Base64Url, protect, unprotect, default_serializer,
}
use yohira.Authentication.SecureDataFormat.RoundTrip.{Protects, IsEncoding, unprotect-protect}
use yohira.Authentication.TicketSerializer.RoundTrip.{IsTicket, deserialize-serialize_ticket}

abbrev session : AuthenticationProperties
session = record {
  items = (codes ".issued", some (codes "now")) ∷ (codes ".refresh", some []) ∷ [];
}

session-IsProperties : IsProperties session
unfolding Common.same_text
session-IsProperties = record {
  entries = ((ground arith, ground arith, refl), ((ground arith, ground arith, refl), tt));
  distinct = (tt, ((refl, tt), tt));
  few = ground arith;
}

deserialize-serialize_example :
    and_then (PropertiesSerializer.serialize session) PropertiesSerializer.deserialize
    ≡ ok (some session)
deserialize-serialize_example = deserialize-serialize session session-IsProperties

abbrev named : Claim
named = record {
  type = default_name_claim_type;
  value = codes "ann";
  value_type = string_value_type;
  issuer = codes "us";
  original_issuer = codes "them";
  properties = (codes "k", some (codes "p")) ∷ [];
}

named-IsClaim : IsClaim named
unfolding Common.same_text
named-IsClaim = record {
  typed = (ground arith, refl);
  valued = ground arith;
  value_typed = ((ground arith, refl), ground arith);
  issued = ((ground arith, refl), ground arith);
  first_issued = ((ground arith, refl), ground arith);
  entries = ((ground arith, ground arith, refl), tt);
  distinct = (tt, tt);
  few = ground arith;
}

abbrev user : Identity
user = record {
  authentication_type = some (codes "Cookies");
  claims = named ∷ [];
  bootstrap_context = none;
}

abbrev delegate : Identity
delegate = record {
  authentication_type = some [];
  claims = [];
  bootstrap_context = some (codes "token");
}

abbrev ticket : AuthenticationTicket
ticket = record {
  identities = with_actor user (without_actor delegate) ∷ [];
  properties = session;
  authentication_scheme = codes "Cookies";
}

ticket-IsTicket : IsTicket ticket
ticket-IsTicket = record {
  identified = (
    acted user (without_actor delegate)
        (record {
          authentication = authenticated (codes "Cookies") (ground arith);
          claimed = (named-IsClaim, tt);
          few = ground arith;
          context = no_bootstrap;
        })
        (alone delegate (record {
          authentication = authenticated [] (ground arith);
          claimed = tt;
          few = ground arith;
          context = bootstrap b't' (codes "oken") (ground arith);
        })),
    tt,
  );
  few = ground arith;
  scheme = ground arith;
  stored = session-IsProperties;
}

deserialize-serialize_ticket_example :
    and_then (TicketSerializer.serialize ticket) TicketSerializer.deserialize ≡ ok (some ticket)
deserialize-serialize_ticket_example = deserialize-serialize_ticket ticket ticket-IsTicket

-- A protector that puts its purpose ahead of the data, and takes it off again.
abbrev without : List ℕ → List ℕ → Option (List ℕ)
without [] bytes = some bytes
without (c ∷ purpose) [] = none
without (c ∷ purpose) (d ∷ bytes) = if c == d then without purpose bytes else none

abbrev labelled : List ℕ → DataProtector ℕ
labelled purpose = record {
  protect = λ bytes. ok (purpose ++ bytes);
  unprotect = λ bytes. ok (without purpose bytes);
}

without-append : (purpose bytes : List ℕ) → without purpose (purpose ++ bytes) ≡ some bytes
without-append [] bytes = refl
without-append (c ∷ purpose) bytes =
    let same : (c == c) ≡ true = ground arith in rw same (without-append purpose bytes)

abbrev get_ok : List ℕ → Result ℕ (List ℕ) → List ℕ
get_ok otherwise (ok bytes) = bytes
get_ok otherwise (err e) = otherwise

labelled-Protects : (purpose : List ℕ) → Protects (labelled purpose)
labelled-Protects purpose = record {
  succeeds = λ bytes. (purpose ++ bytes, refl);
  gives_back = λ bytes b e.
      let same : purpose ++ bytes ≡ b = ap (get_ok b) e in
      rw (← same, without-append purpose bytes) refl;
}

-- Each byte behind a letter.
abbrev letters : List ℕ → List ℕ
letters [] = []
letters (b ∷ bytes) = b'A' ∷ b ∷ letters bytes

abbrev bytes_of : List ℕ → List ℕ
bytes_of [] = []
bytes_of (c ∷ []) = []
bytes_of (c ∷ b ∷ text) = b ∷ bytes_of text

abbrev spelled : Base64Url
spelled = record { encode = letters; decode = bytes_of }

spelled-IsEncoding : IsEncoding spelled
spelled-IsEncoding = record { decoded = λ bytes. bytes_of-letters bytes }
  where
    bytes_of-letters : (bytes : List ℕ) → bytes_of (letters bytes) ≡ bytes
    bytes_of-letters [] = refl
    bytes_of-letters (b ∷ bytes) = ap (λ bs. b ∷ bs) (bytes_of-letters bytes)

unprotect-protect_example :
    (text : List ℕ) × (protect default_serializer
        (labelled [])
        labelled
        spelled
        ticket
        (some (codes "login"))
      ≡ ok text)
    × (unprotect default_serializer
          (labelled [])
          labelled
          spelled
          (some text)
          (some (codes "login"))
        ≡ some ticket)
unprotect-protect_example =
    unprotect-protect (labelled []) labelled spelled (labelled-Protects []) labelled-Protects
      spelled-IsEncoding ticket (some (codes "login")) ticket-IsTicket
