-- ===== src/Authentication/PropertiesSerializer/RoundTrip.antt =====
-- PropertiesSerializer.ts reads what it writes.
use yohira.Common.{
  ℕ, ◌^◌, ◌<◌, ◌≡◌, refl, List, [], ◌++◌, append_assoc, length, lt→ltb, some, ok, and_then, pos,
}
use yohira.Base.BinaryWriter.Emitting.{Emits, Emits->>}
use yohira.Base.BinaryReader.Taking.{Takes, Takes->>=, Takes-map}
use yohira.Base.RoundTrip.Numbers.{int32_bytes, Emits-int32, Takes-int32}
use yohira.Authentication.Memory.Laws.{to_memory-Emits, from_memory-Takes}
use yohira.Authentication.Entries.RoundTrip.{
  AreEntries, HasDistinctKeys, entries_bytes, Extends-write_entries, Takes-read_entries,
}
use yohira.Authentication.PropertiesSerializer.{
  AuthenticationProperties, create_with_items, or_empty, write, read_items, read, format_version,
  serialize, deserialize,
}

-- Properties that can be told from what is written: the keys are distinct, no value is undefined, and
-- all is short enough to be written.
pub record IsProperties (p : AuthenticationProperties) : Type 0 where
  pub entries : AreEntries or_empty some p.items
  pub distinct : HasDistinctKeys [] p.items
  pub few : length p.items < 2 ^ 31

pub properties_bytes : AuthenticationProperties → List ℕ
properties_bytes p =
    (int32_bytes format_version ++ int32_bytes (pos (length p.items)))
    ++ entries_bytes or_empty p.items

module _ (p : AuthenticationProperties) (w : IsProperties p) where
  pub Emits-write : Emits (write p) (properties_bytes p)
  unfolding write properties_bytes
  Emits-write =
      let count = lt→ltb (length p.items) (2 ^ 31) w.few in
      Extends-write_entries or_empty p.items _ _
        (Emits->> (Emits-int32 format_version refl) (Emits-int32 (pos (length p.items)) count))

  Takes-read_items :
      Takes (read_items (pos (length p.items))) (entries_bytes or_empty p.items) (some p)
  unfolding read_items
  Takes-read_items =
      Takes-map (λ items. some (create_with_items items))
        (Takes-read_entries or_empty some [] p.items w.entries w.distinct)

  pub Takes-read : Takes read (properties_bytes p) (some p)
  unfolding read properties_bytes
  Takes-read =
      let count = lt→ltb (length p.items) (2 ^ 31) w.few in
      let version = int32_bytes format_version in
      let size = int32_bytes (pos (length p.items)) in
      rw (append_assoc version size (entries_bytes or_empty p.items)) (
        Takes->>= _ (Takes-int32 format_version refl)
          (Takes->>= read_items (Takes-int32 (pos (length p.items)) count) Takes-read_items))

-- For properties with distinct keys, without undefined values, fewer than 2 ^ 31 and with shorter
-- strings: deserialize returns what was serialized.
pub deserialize-serialize :
    (p : AuthenticationProperties)
    → IsProperties p
    → and_then (serialize p) deserialize ≡ ok (some p)
unfolding serialize deserialize
deserialize-serialize p w =
    rw (to_memory-Emits (write p) (properties_bytes p) (Emits-write p w))
      (from_memory-Takes read (properties_bytes p) (some p) (Takes-read p w))
