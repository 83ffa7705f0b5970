-- ===== src/Authentication/Entries/RoundTrip.antt =====
-- Entries written one after the other are read back.
use yohira.Common.{
  ℕ, ◌^◌, ◌<◌, ◌≡◌, refl, ap, ◌∙◌, false, List, [], ◌∷◌, ◌++◌, append_assoc, append-nil, length,
  ◌>>=◌, same_text,
}
use yohira.Base.BinaryWriter.Emitting.{Emits->>}
use yohira.Base.BinaryReader.{read_string}
use yohira.Base.BinaryReader.Taking.{Takes, Takes->>=}
use yohira.Base.RoundTrip.SevenBit.{string_bytes, Emits-string, Takes-string}
use yohira.Base.RoundTrip.Chains.{Extends, Emits-Extends, Extends-pure, Extends->>, Takes-pure}
use yohira.Authentication.Entries.{map_set, write_entries, read_entries}

-- A string whose length the 7-bit encoding holds.
abbrev pub IsShort : List ℕ → Type 0
IsShort text = length text < 2 ^ 31

module _ {V : Type 0} where
  pub entries_bytes : (V → List ℕ) → List (List ℕ × V) → List ℕ
  entries_bytes text [] = []
  entries_bytes text ((key, value) ∷ entries) =
      (string_bytes key ++ string_bytes (text value)) ++ entries_bytes text entries

  pub Extends-write_entries :
      (text : V → List ℕ) (entries : List (List ℕ × V))
      → Extends (write_entries text entries) (entries_bytes text entries)
  unfolding write_entries entries_bytes
  Extends-write_entries text [] = Extends-pure
  Extends-write_entries text ((key, value) ∷ entries) =
      Extends->> (Emits-Extends (Emits->> (Emits-string key) (Emits-string (text value))))
        (Extends-write_entries text entries)

  -- No entry has the key.
  abbrev pub Lacks : List (List ℕ × V) → List ℕ → Type 0
  Lacks [] key = Unit
  Lacks ((k, v) ∷ entries) key = (same_text k key ≡ false) × Lacks entries key

  -- No key occurs twice, neither here nor in the entries before.
  abbrev pub HasDistinctKeys : List (List ℕ × V) → List (List ℕ × V) → Type 0
  HasDistinctKeys before [] = Unit
  HasDistinctKeys before ((key, value) ∷ entries) =
      Lacks before key × HasDistinctKeys (before ++ (key, value) ∷ []) entries

  map_set-Lacks :
      (entries : List (List ℕ × V)) (key : List ℕ) (value : V)
      → Lacks entries key
      → map_set entries key value ≡ entries ++ (key, value) ∷ []
  unfolding map_set
  map_set-Lacks [] key value h = refl
  map_set-Lacks ((k, v) ∷ entries) key value h =
      rw h.0 (ap (λ es. (k, v) ∷ es) (map_set-Lacks entries key value h.1))

  module _ (text : V → List ℕ) (value : List ℕ → V) where
    -- Short strings, and a value that is read back as it is.
    abbrev pub AreEntries : List (List ℕ × V) → Type 0
    AreEntries [] = Unit
    AreEntries ((k, v) ∷ entries) =
        (IsShort k × IsShort (text v) × (value (text v) ≡ v)) × AreEntries entries

    pub Takes-read_entries :
        (before entries : List (List ℕ × V))
        → AreEntries entries
        → HasDistinctKeys before entries
        → Takes
            (read_entries value (length entries) before)
            (entries_bytes text entries)
            (before ++ entries)
    unfolding read_entries entries_bytes
    Takes-read_entries before [] h d = rw (append-nil before) (Takes-pure before)
    Takes-read_entries before ((k, v) ∷ entries) h d =
        let after = before ++ (k, v) ∷ [] in
        let set : map_set before k (value (text v)) ≡ after =
          ap (map_set before k) h.0.2 ∙ map_set-Lacks before k v d.0 in
        let read_rest = λ (k : List ℕ) (t : List ℕ).
          read_entries value (length entries) (map_set before k (value t)) in
        let found = before ++ (k, v) ∷ entries in
        let rest : Takes (read_rest k (text v)) (entries_bytes text entries) found =
          rw (set, ← append_assoc before ((k, v) ∷ []) entries)
            (Takes-read_entries after entries h.1 d.1) in
        rw (append_assoc (string_bytes k) (string_bytes (text v)) (entries_bytes text entries)) (
          Takes->>= (λ k. read_string >>= read_rest k) (Takes-string k h.0.0)
            (Takes->>= (read_rest k) (Takes-string (text v) h.0.1) rest))
