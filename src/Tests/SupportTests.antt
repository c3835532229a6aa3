-- ===== src/Tests/SupportTests.antt =====
-- internal/routing/endpoint.go, internal/reputation/cache.go and internal/region/filter.go at concrete
-- inputs.
use super_proxy.Base.{String, true, List, [], ◌∷◌, string_eq}
use super_proxy.Models.{Node, Status}
use super_proxy.Endpoint.{Call, acquires, releases, refused, ensured}
use super_proxy.Cache.{Cache}
use super_proxy.Region.{RegionConfig}
use super_proxy.Tests.Data.{node_at}

-- Two tunnels take an endpoint, and one gives it back.
abbrev sharing : List Call
sharing =
    releases "203.0.113.1" (record { finds_gateway = true; deletes = true })
    ∷ acquires "203.0.113.1" refused
    ∷ acquires "203.0.113.1" ensured
    ∷ []

abbrev small_cache : Cache String String
small_cache = record {
  entries = [];
  provider_entries = [];
  ttl = 100;
  provider_ttls = ("IPQS", 20) ∷ [];
  hits = 0;
  misses = 0;
  requests = 0;
}

abbrev regions : RegionConfig
regions = record { primary = "JP"; fallback = "KR" ∷ "JP" ∷ [] }

abbrev korean : Node
korean = record (node_at "203.0.113.2" Status.discovered) { country = "KR" }

abbrev japanese : Node
japanese = node_at "203.0.113.1" Status.discovered
