-- ===== src/Cache.antt =====
-- internal/reputation/cache.go: results by address, and providers' results by address and provider, each
-- until its expiry. A result is any type: the cache stores pointers. Times and durations are numbers of
-- nanoseconds, and `now` is the clock's answer; a set TTL that is not positive is 0 here. The counters
-- are int64, far from their bound. Every operation on the maps holds the mutex.
pub mod Freshness
use super_proxy.Base.{
  ℕ, ◌+◌, ◌*◌, ltb, String, Bool, true, false, ◌&&◌, ◌||◌, not, Option, none, some, List, [], ◌∷◌,
  if◌then◌else◌, ◌==◌, string_eq,
}
use super_proxy.Base.Assoc

-- cacheEntry and providerCacheEntry
pub record Entry (R : Type 0) : Type 0 where
  pub result : R
  pub expires_at : ℕ

pub record Cache (R P : Type 0) : Type 0 where
  pub entries : List (String × Entry R)
  pub provider_entries : List (String × List (String × Entry P))
  pub ttl : ℕ
  pub provider_ttls : List (String × ℕ)
  pub hits : ℕ
  pub misses : ℕ
  pub requests : ℕ

abbrev pub hour : ℕ
hour = 3600000000000

-- An entry that is there and whose expiry is not past.
unfoldable pub fresh : {A : Type 0} → ℕ → Option (Entry A) → Option A
fresh now none = none
fresh now (some entry) = if ltb entry.expires_at now then none else some entry.result

module _ {R P : Type 0} where
  -- NewCache
  unfoldable pub new_cache : ℕ → Cache R P
  new_cache ttl = record {
    entries = [];
    provider_entries = [];
    ttl = ttl;
    provider_ttls =
        ("AbuseIPDB", 24 * hour)
        ∷ ("GreyNoise", 24 * hour)
        ∷ ("IPQS", 24 * hour)
        ∷ ("IPInfo", 7 * (24 * hour))
        ∷ [];
    hits = 0;
    misses = 0;
    requests = 0;
  }

  -- SetProviderTTL
  unfoldable pub set_provider_ttl : String → ℕ → Cache R P → Cache R P
  set_provider_ttl provider ttl c = record c {
    provider_ttls = Assoc.insert provider ttl c.provider_ttls;
  }

  -- ProviderTTL
  unfoldable pub provider_ttl : String → Cache R P → ℕ
  provider_ttl provider c = elim (Assoc.lookup provider c.provider_ttls) [
    | none ↦ c.ttl
    | some ttl ↦ if ltb 0 ttl then ttl else c.ttl
  ]

  -- What a lookup counts.
  unfoldable pub counted : {A : Type 0} → Option A → Cache R P → Cache R P
  counted none c = record c { requests = c.requests + 1; misses = c.misses + 1 }
  counted (some result) c = record c { requests = c.requests + 1; hits = c.hits + 1 }

  unfoldable pub providers_of : String → Cache R P → List (String × Entry P)
  providers_of ip c = elim (Assoc.lookup ip c.provider_entries) [ none ↦ [] | some m ↦ m ]

  -- GetProvider
  unfoldable pub get_provider : ℕ → String → String → Cache R P → Cache R P × Option P
  unfolding providers_of
  get_provider now ip provider c =
      let found = fresh now (Assoc.lookup provider (providers_of ip c)) in (counted found c, found)

  -- SetProviderUntil
  unfoldable pub set_provider_until : String → String → P → ℕ → Cache R P → Cache R P
  unfolding providers_of
  set_provider_until ip provider res expires_at c =
      let entry : Entry P = record { result = res; expires_at = expires_at } in
      let m = Assoc.insert provider entry (providers_of ip c) in
      record c { provider_entries = Assoc.insert ip m c.provider_entries }

  -- SetProvider
  unfoldable pub set_provider : ℕ → String → String → P → Cache R P → Cache R P
  unfolding set_provider_until provider_ttl
  set_provider now ip provider res c =
      set_provider_until ip provider res (now + provider_ttl provider c) c

  -- Get
  unfoldable pub get : ℕ → String → Cache R P → Cache R P × Option R
  get now ip c = let found = fresh now (Assoc.lookup ip c.entries) in (counted found c, found)

  -- SetUntil
  unfoldable pub set_until : String → R → ℕ → Cache R P → Cache R P
  set_until ip res expires_at c = record c {
    entries = Assoc.insert ip (record { result = res; expires_at = expires_at }) c.entries;
  }

  -- Set
  unfoldable pub set : ℕ → String → R → Cache R P → Cache R P
  unfolding set_until
  set now ip res c = set_until ip res (now + c.ttl) c

  -- Stats
  unfoldable pub stats : Cache R P → ℕ × ℕ × ℕ
  stats c = (c.hits, c.misses, c.requests)
