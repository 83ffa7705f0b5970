-- ===== src/Authentication/Entries.antt =====
-- The maps that packages/authentication/src/PropertiesSerializer.ts and TicketSerializer.ts write entry by
-- entry: a Map is the list of its entries in their order, a string its bytes.
pub mod RoundTrip
use yohira.Common.{ℕ, zero, suc, List, [], ◌∷◌, ◌>>=◌, ◌>>◌, pure, if◌then◌else◌, same_text}
use yohira.Base.MemoryStream.{M}
use yohira.Base.BinaryWriter.{write_string}
use yohira.Base.BinaryReader.{read_string}

-- `Map.set`: a key that is there keeps its place.
unfoldable pub map_set {ℓ} : {V : Type ℓ} → List (List ℕ × V) → List ℕ → V → List (List ℕ × V)
map_set [] key value = (key, value) ∷ []
map_set ((k, v) ∷ entries) key value =
    let rest = map_set entries key value in
    if same_text k key then (k, value) ∷ entries else (k, v) ∷ rest

module _ {V : Type 0} where
  -- `text` is what `value ?? ''` makes of a value.
  unfoldable pub write_entries : (V → List ℕ) → List (List ℕ × V) → M (Unit {0})
  write_entries text [] = pure tt
  write_entries text ((key, value) ∷ entries) =
      (write_string key >> write_string (text value)) >> write_entries text entries

  -- With so many entries left; `value` makes a value of a string.
  unfoldable pub read_entries : (List ℕ → V) → ℕ → List (List ℕ × V) → M (List (List ℕ × V))
  read_entries value zero entries = pure entries
  read_entries value (suc left) entries = read_string >>= λ key.
      read_string >>= λ text. read_entries value left (map_set entries key (value text))
