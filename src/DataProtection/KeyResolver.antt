-- ===== src/DataProtection/KeyResolver.antt =====
-- packages/data-protection/src/key-management/DefaultKeyResolver.ts, with KeyExtensions.ts. Dates are
-- milliseconds since an epoch. Parameters: whether a key's `createEncryptor` gives an encryptor, and
-- JavaScript's `localeCompare` of the keys' identifiers.
pub mod Choice
use yohira.Common.{
  ℕ, ◌+◌, Bool, true, false, not, ◌&&◌, ◌||◌, List, [], ◌∷◌, ◌++◌, leb, if◌then◌else◌, Option, none,
  some, ℤ, sub_ℕ, lex, filter, sort, first,
}

pub record Key : Type 0 where
  pub key_id : List ℕ
  pub creation_date : ℕ
  pub activation_date : ℕ
  pub expiration_date : ℕ
  pub is_revoked : Bool

pub record DefaultKeyResolution : Type 0 where
  pub default_key : Option Key
  pub fallback_key : Option Key
  pub should_generate_new_key : Bool

-- Five minutes.
abbrev pub max_server_clock_skew : ℕ
max_server_clock_skew = 300000

-- Two days.
abbrev pub key_propagation_window : ℕ
key_propagation_window = 172800000

abbrev pub is_expired : Key → ℕ → Bool
is_expired key now = leb key.expiration_date now

-- `some` of an array.
abbrev pub any : (Key → Bool) → List Key → Bool
any p [] = false
any p (k ∷ ks) = p k || any p ks

-- The test of the keys that are active by now, allowing for skew.
abbrev pub is_active : ℕ → Key → Bool
is_active now key = leb key.activation_date (now + max_server_clock_skew)

abbrev pub newest_first : Key → Key → ℤ
newest_first a b = sub_ℕ b.creation_date a.creation_date

abbrev pub oldest_first : Key → Key → ℤ
oldest_first a b = sub_ℕ a.creation_date b.creation_date

-- Created before the previous propagation window.
abbrev pub is_propagated : ℕ → Key → Bool
is_propagated now key = leb (key.creation_date + key_propagation_window) now

module _ (locale_compare : List ℕ → List ℕ → ℤ) (can_create : Key → Bool) where
  -- The most recently activated first, and by identifier where two were at once.
  abbrev pub by_activation : Key → Key → ℤ
  by_activation =
      lex (λ a b. sub_ℕ b.activation_date a.activation_date) λ a b. locale_compare a.key_id b.key_id

  -- Neither revoked nor expired, and with an encryptor.
  abbrev pub is_candidate : ℕ → Key → Bool
  is_candidate now key = not (key.is_revoked || (is_expired key now || not (can_create key)))

  unfoldable pub preferred_key : ℕ → List Key → Option Key
  preferred_key now all_keys = elim (first (sort by_activation (filter (is_active now) all_keys))) [
    | none ↦ none
    | some key ↦ if is_candidate now key then some key else none
  ]

  -- Whether a key makes a new one unnecessary: active before the preferred key expires, and valid one
  -- propagation window from now.
  abbrev pub will_succeed : ℕ → Key → Key → Bool
  will_succeed now preferred key =
      leb key.activation_date (preferred.expiration_date + max_server_clock_skew)
      && (not (is_expired key (now + key_propagation_window)) && not key.is_revoked)

  abbrev pub is_usable : Key → Bool
  is_usable key = not key.is_revoked && can_create key

  -- Propagated keys, the newest first, then all keys, the oldest first.
  unfoldable pub find_fallback_key : ℕ → List Key → Option Key
  find_fallback_key now all_keys = first (
      filter is_usable
        (sort newest_first (filter (is_propagated now) all_keys) ++ sort oldest_first all_keys))

  -- What `findDefaultKey` returns and sets, once it knows the preferred key.
  abbrev pub resolved : ℕ → List Key → Option Key → DefaultKeyResolution
  resolved now keys (some preferred) = record {
    default_key = some preferred;
    fallback_key = none;
    should_generate_new_key = not (any (will_succeed now preferred) keys);
  }
  resolved now keys none = record {
    default_key = none;
    fallback_key = find_fallback_key now keys;
    should_generate_new_key = true;
  }

  -- `resolveDefaultKeyPolicy`, by `findDefaultKey`.
  unfoldable pub resolve_default_key_policy : ℕ → List Key → DefaultKeyResolution
  resolve_default_key_policy now all_keys = resolved now all_keys (preferred_key now all_keys)
