-- ===== src/Cache/Freshness.antt =====
-- What a lookup in the cache answers.
use super_proxy.Base.{
  ℕ, ◌+◌, ltb, String, ◌&&◌, none, some, if◌then◌else◌, ◌==◌, string_eq, ◌≡◌, arith,
}
use super_proxy.Base.Assoc
use super_proxy.Cache.{
  Cache, Entry, set, get, set_until, fresh, set_provider, set_provider_until, get_provider,
  provider_ttl, providers_of,
}

module _ {R P : Type 0} where
  -- A lookup after a store: within the store's time to live, an address gives what was stored for it, and
  -- afterwards nothing; every other address gives what it gave.
  pub get-set :
      (now later : ℕ) (ip j : String) (res : R) (c : Cache R P)
      → (get later j (set now ip res c)).1 ≡ (
          if ip == j then if ltb (now + c.ttl) later then none else some res else (get later j c).1)
  unfolding get set fresh set_until
  get-set now later ip j res c = ground (
    arith,
    Assoc.lookup-insert ip j (record { result = res; expires_at = now + c.ttl }) c.entries,
  )

  provider_entries_after :
      (ip provider j q : String) (entry : Entry P) (c : Cache R P)
      → Assoc.lookup q
          (providers_of j (set_provider_until ip provider entry.result entry.expires_at c))
        ≡ (if (ip == j) && (provider == q) then some entry else Assoc.lookup q (providers_of j c))
  unfolding set_provider_until providers_of
  provider_entries_after ip provider j q entry c = ground (
    arith,
    string_eq.beq_iff ip j,
    string_eq.beq_iff provider q,
    Assoc.lookup-insert ip j (Assoc.insert provider entry (providers_of ip c)) c.provider_entries,
    Assoc.lookup-insert provider q entry (providers_of ip c),
  )

  -- The same for the providers' results, under the time to live of the provider: the one set for it, or the
  -- cache's when that is not positive.
  pub get_provider-set_provider :
      (now later : ℕ) (ip provider j q : String) (res : P) (c : Cache R P)
      → (get_provider later j q (set_provider now ip provider res c)).1 ≡ (
          if (ip == j) && (provider == q)
          then if ltb (now + provider_ttl provider c) later then none else some res
          else (get_provider later j q c).1)
  unfolding get_provider set_provider fresh
  get_provider-set_provider now later ip provider j q res c = ground (
    arith,
    provider_entries_after ip provider j q
        (record { result = res; expires_at = now + provider_ttl provider c }) c,
  )
