-- ===== src/Ovpn.antt =====
-- internal/discovery/vpngate_ovpn.go: the OpenVPN configuration of an untrusted node is parsed
-- against an allowlist, and a canonical configuration is written from what was accepted.
pub mod Strings
pub mod Checks
pub mod Config
pub mod Directives
pub mod Parse
pub mod Resolve
pub mod Generate
pub mod Lines
pub mod Reader
pub mod Blocks
pub mod Canonical
pub mod Accepted
pub mod Scanned
pub mod Safe
pub mod Secrets
pub mod Decimal
pub mod Remotes
pub mod RoundTrip
