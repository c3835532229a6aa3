-- ===== src/Health/Verified.antt =====
-- What a healthy tunnel has shown.
use super_proxy.Base.{
  ℕ, ◌≤◌, ◌<◌, ltb, leb, String, Bool, true, false, ◌&&◌, ◌||◌, not, Option, none, some, List, [],
  ◌∷◌, ◌==◌, nat_eq, string_eq, if◌then◌else◌, ◌≡◌, ◌≢◌, ◌⊎◌, inl, inr, arith, refl, Bool-cases,
  Option-cases, subst, ◌∙◌, ◌++◌, All, ap,
}
use super_proxy.Diversity.{Ip, v4, v6}
use super_proxy.Health.{
  Response, no_response, responds, IpProvider, Probe, VerifyResult, is_exit_address, candidate_ip,
  exit_shown, or_later, first_exit, compare_exit, verify_tunnel, link_down, no_route, failed_result,
}

-- An IPv4 address that is not private, not of the own host or link, not a multicast address, and neither
-- 0.0.0.0 nor 255.255.255.255.
unfoldable pub IsRoutable : Option Ip → Type 0
IsRoutable o =
    (a : ℕ) × (b : ℕ) × (c : ℕ) × (d : ℕ) × (o ≡ some (v4 a b c d))
    × (a ≢ 10)
    × (a ≢ 127)
    × ((a < 224) ⊎ (240 ≤ a))
    × ((a ≢ 169) ⊎ (b ≢ 254))
    × ((a ≢ 192) ⊎ (b ≢ 168))
    × ((a ≢ 172) ⊎ ((b < 16) ⊎ (32 ≤ b)))
    × (v4 a b c d ≢ v4 0 0 0 0)
    × (v4 a b c d ≢ v4 255 255 255 255)

is_exit_address-IsRoutable : (o : Option Ip) → is_exit_address o ≡ true → IsRoutable o
unfolding is_exit_address IsRoutable
is_exit_address-IsRoutable none h = ground arith
is_exit_address-IsRoutable (some (v6 a)) h = ground arith
is_exit_address-IsRoutable (some (v4 a b c d)) h = (
  a,
  b,
  c,
  d,
  refl,
  ground (arith, h),
  ground (arith, h),
  ground (arith, h),
  ground (arith, h),
  ground (arith, h),
  ground (arith, h),
  λ e. ground (arith, h, e),
  λ e. ground (arith, h, e),
)

abbrev pub IsUnhealthy : VerifyResult → Type 0
IsUnhealthy r = (r.tunnel_healthy ≡ false) × (r.error ≢ none)

module _ (p : Probe) where
  -- A provider answered with a success status and with this address, which is routable.
  abbrev pub Shows : IpProvider → String → Type 0
  Shows provider ip =
      (status : ℕ) × (body : String) × (provider.response ≡ responds status body)
      × (200 ≤ status)
      × (status < 300)
      × (candidate_ip p provider.is_json body ≡ ip)
      × IsRoutable (p.text.parse_ip ip)

  -- The first of the providers that shows an address shows this one.
  abbrev pub IsFirstShown : List IpProvider → String → Type 0
  IsFirstShown providers ip =
      (before : List IpProvider) × (provider : IpProvider) × (after : List IpProvider) × (providers
        ≡ before ++ (provider ∷ after))
      × All (λ q. exit_shown p q q.response ≡ none) before
      × Shows provider ip

  exit_shown-Shows :
      (provider : IpProvider) (r : Response) (ip : String) (duration : ℕ)
      → provider.response ≡ r
      → exit_shown p provider r ≡ some (ip, duration)
      → Shows provider ip
  unfolding exit_shown
  exit_shown-Shows provider no_response ip duration answered h = ground (arith, h)
  exit_shown-Shows provider (responds status body) ip duration answered h =
      let shown = candidate_ip p provider.is_json body in
      elim (Bool-cases
        ((leb 200 status && ltb status 300) && is_exit_address (p.text.parse_ip shown))) [
          | inl t ↦
              let same : shown ≡ ip = ground (arith, h, t) in
              (
                status,
                body,
                answered,
                ground (arith, t),
                ground (arith, t),
                same,
                subst (λ s. IsRoutable (p.text.parse_ip s)) same
                    (is_exit_address-IsRoutable (p.text.parse_ip shown) (ground (arith, t))),
              )
          | inr t ↦ absurd (ground (arith, h, t))
        ]

  first_exit-IsFirstShown :
      (providers : List IpProvider) (ip : String) (duration : ℕ)
      → first_exit p providers ≡ some (ip, duration)
      → IsFirstShown providers ip
  unfolding first_exit or_later
  first_exit-IsFirstShown [] ip duration h = ground (arith, h)
  first_exit-IsFirstShown (provider ∷ rest) ip duration h =
      elim (Option-cases (exit_shown p provider provider.response)) [
        | inl e ↦
            let (before, q, after, split, silent, shows) =
              first_exit-IsFirstShown rest ip duration
                (subst (λ o. or_later o (first_exit p rest) ≡ some (ip, duration)) e h) in
            (provider ∷ before, q, after, ap (λ l. provider ∷ l) split, (e, silent), shows)
        | inr (shown, e) ↦ (
          [],
          provider,
          rest,
          refl,
          tt,
          exit_shown-Shows provider provider.response ip duration refl
              (e ∙ subst (λ o. or_later o (first_exit p rest) ≡ some (ip, duration)) e h),
        )
      ]

  -- The tunnel is healthy, without an error: its link is up and its table routes through it, and its
  -- exit is what the first provider that shows one shows, and the expected one, where one is expected.
  unfoldable pub IsProven : String → VerifyResult → Type 0
  IsProven expected r =
      (r.tunnel_healthy ≡ true)
      × (r.error ≡ none)
      × (r.exit_ip_match ≡ true)
      × (p.link_up ≡ true)
      × (p.route_found ≡ true)
      × IsFirstShown p.providers r.observed_exit_ip
      × ((expected ≡ "") ⊎ (r.observed_exit_ip ≡ expected))

  compare_exit-IsProven :
      (expected : String) (shown : Option (String × ℕ))
      → p.link_up ≡ true
      → p.route_found ≡ true
      → ((ip : String) (duration : ℕ) → shown ≡ some (ip, duration) → IsFirstShown p.providers ip)
      → IsProven expected (compare_exit p expected shown)
        ⊎ IsUnhealthy (compare_exit p expected shown)
  unfolding compare_exit IsProven
  compare_exit-IsProven expected none up routed routable = ground arith
  compare_exit-IsProven expected (some (ip, duration)) up routed routable =
      elim (Bool-cases (ip == "")) [
        | inl e ↦ rw e (ground arith)
        | inr e ↦ rw e (elim (Bool-cases ((expected == "") || (ip == expected))) [
          | inl m ↦ rw m (
              inl (
                refl,
                refl,
                refl,
                up,
                routed,
                routable ip duration refl,
                ground (arith, m, string_eq.beq_iff expected "", string_eq.beq_iff ip expected),
              ))
          | inr m ↦ rw m (ground arith)
        ])
      ]

  judged :
      (expected : String) (up routed : Bool)
      → p.link_up ≡ up
      → p.route_found ≡ routed
      → let r =
          if not up
          then failed_result expected link_down
          else if not routed
          then failed_result expected no_route
          else compare_exit p expected (first_exit p p.providers) in
        IsProven expected r ⊎ IsUnhealthy r
  judged expected false routed e f = inr (refl, ground arith)
  judged expected true false e f = inr (refl, ground arith)
  judged expected true true e f =
      compare_exit-IsProven expected (first_exit p p.providers) e f
        (first_exit-IsFirstShown p.providers)

  -- The verdict on a tunnel is sound: either it is proven, or it is not healthy and has an error. A proven
  -- tunnel is one whose link is up, whose table routes through it, and whose exit is the routable IPv4 address
  -- that a provider answered with a status of 2xx, after none of the providers before it showed one, and is
  -- the one that was seen before, if any.
  pub verify_tunnel-IsProven :
      (expected : String)
      → IsProven expected (verify_tunnel p expected) ⊎ IsUnhealthy (verify_tunnel p expected)
  unfolding verify_tunnel
  verify_tunnel-IsProven expected = judged expected p.link_up p.route_found refl refl
