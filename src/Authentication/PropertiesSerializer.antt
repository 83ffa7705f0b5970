-- ===== src/Authentication/PropertiesSerializer.antt =====
-- packages/authentication/src/PropertiesSerializer.ts over BinaryWriter and BinaryReader. A string is
-- its bytes, a Map the list of its entries in their order.
pub mod RoundTrip
use yohira.Common.{
  ℕ, zero, suc, List, [], ◌∷◌, ◌++◌, length, Option, none, some, Result, ℤ, pos, negsuc, ◌>>=◌,
  ◌>>◌, pure, throw, if◌then◌else◌, eqb_ℤ,
}
use yohira.Base.MemoryStream.{M, Error, out_of_fuel}
use yohira.Base.BinaryWriter.{write_int32_le}
use yohira.Base.BinaryReader.{read_int32_le}
use yohira.Authentication.Memory.{to_memory, from_memory}
use yohira.Authentication.Entries.{write_entries, read_entries}

-- `parameters` is not serialized.
pub record AuthenticationProperties : Type 0 where
  pub items : List (List ℕ × Option (List ℕ))

abbrev pub create_with_items : List (List ℕ × Option (List ℕ)) → AuthenticationProperties
create_with_items items = record { items = items }

abbrev pub format_version : ℤ
format_version = pos 1

-- `text ?? ''`
abbrev pub or_empty : Option (List ℕ) → List ℕ
or_empty none = []
or_empty (some text) = text

unfoldable pub write : AuthenticationProperties → M (Unit {0})
write properties =
    (write_int32_le format_version >> write_int32_le (pos (length properties.items)))
    >> write_entries or_empty properties.items

-- From a negative count the index moves away for ever, and a read at the end of the stream gives an
-- empty string: the loop does not end.
unfoldable pub read_items : ℤ → M (Option AuthenticationProperties)
read_items (pos count) =
    read_entries some count [] >>= λ extra. pure (some (create_with_items extra))
read_items (negsuc n) = throw out_of_fuel

unfoldable pub read : M (Option AuthenticationProperties)
read = read_int32_le >>= λ version.
    if eqb_ℤ version format_version then read_int32_le >>= read_items else pure none

unfoldable pub serialize : AuthenticationProperties → Result Error (List ℕ)
serialize model = to_memory (write model)

unfoldable pub deserialize : List ℕ → Result Error (Option AuthenticationProperties)
deserialize input = from_memory read input
