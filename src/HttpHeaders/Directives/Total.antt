-- ===== src/HttpHeaders/Directives/Total.antt =====
-- CacheControlHeaderValue.parse on any input.
use yohira.Common.{◌≡◌, Result, ok}
use yohira.HttpHeaders.Rules.{HeaderError}
use yohira.HttpHeaders.CacheControl.{CacheControl}

-- A run that ends with a value.
abbrev Ends : {A : Type 0} → Result HeaderError A → Type 0
Ends {A} m = (a : A) × (m ≡ ok a)
