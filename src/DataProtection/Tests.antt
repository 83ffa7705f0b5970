-- ===== src/DataProtection/Tests.antt =====
-- The key resolver on three keys, with identifiers compared by length.
use yohira.Common.{
  ℕ, ◌≡◌, refl, Bool, true, false, List, [], ◌∷◌, length, some, ℤ, sub_ℕ, IsComparer, arith,
}
use yohira.DataProtection.KeyResolver.{Key, preferred_key, resolve_default_key_policy}
use yohira.DataProtection.KeyResolver.Choice.{Resolves, resolve_default_key_policy-Resolves}

abbrev by_length : List ℕ → List ℕ → ℤ
by_length x y = sub_ℕ (length x) (length y)

by_length-IsComparer : IsComparer by_length
by_length-IsComparer = record {
  flipped = λ x y. ground arith;
  transitive = λ x y z h k. ground arith;
}

abbrev key : ℕ → ℕ → Bool → Key
key activation_date expiration_date is_revoked = record {
  key_id = [];
  creation_date = 0;
  activation_date = activation_date;
  expiration_date = expiration_date;
  is_revoked = is_revoked;
}

abbrev keys : List Key
keys = key 100 5000000 false ∷ key 2000 9000000 false ∷ key 8000000 9000000 false ∷ []

abbrev can_create : Key → Bool
can_create k = true

-- At 1000000 the third key is not active yet, and the second was activated last.
second_preferred : preferred_key by_length can_create 1000000 keys ≡ some (key 2000 9000000 false)
unfolding preferred_key
second_preferred = refl

resolve_default_key_policy-Resolves_example :
    let r = resolve_default_key_policy by_length can_create 1000000 keys in
    Resolves by_length can_create by_length-IsComparer 1000000 keys r.default_key r
resolve_default_key_policy-Resolves_example =
    resolve_default_key_policy-Resolves by_length can_create by_length-IsComparer 1000000 keys
