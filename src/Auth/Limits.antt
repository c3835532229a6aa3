-- ===== src/Auth/Limits.antt =====
-- internal/agentapi/ratelimit.go: the visitors' buckets. Times are in nanoseconds.
use super_proxy.Base.{
  ℕ, ◌+◌, ltb, String, Bool, true, false, ◌&&◌, not, Option, none, some, List, [], ◌∷◌, ◌==◌,
  string_eq, Eq, if◌then◌else◌, ◌≡◌, ◌↔◌, arith, refl, Bool-cases, inl, inr, ap, sym, ◌∙◌,
}
use super_proxy.Base.Assoc

-- rate.Limiter of golang.org/x/time/rate: a new one by its rate and burst, and Allow at a time.
pub record Limiter (L : Type 0) : Type 0 where
  pub new_limiter : ℕ → ℕ → L
  pub allow : ℕ → L → L × Bool

-- The key of a bucket: `ip:auth` or `ip:unauth`.
abbrev pub Bucket : Type 0
Bucket = String × Bool

abbrev bool_beq : Bool → Bool → Bool
bool_beq true b = b
bool_beq false b = not b

abbrev pub bucket_beq : Bucket → Bucket → Bool
bucket_beq (ip, auth) (ip', auth') = (ip == ip') && bool_beq auth auth'

pub bucket_beq_iff : (a b : Bucket) → (bucket_beq a b ≡ true) ↔ (a ≡ b)
bucket_beq_iff (ip, true) (ip', true) = ground (arith, string_eq.beq_iff ip ip')
bucket_beq_iff (ip, true) (ip', false) = ground (arith, string_eq.beq_iff ip ip')
bucket_beq_iff (ip, false) (ip', true) = ground (arith, string_eq.beq_iff ip ip')
bucket_beq_iff (ip, false) (ip', false) = ground (arith, string_eq.beq_iff ip ip')

instance abbrev pub bucket_eq : Eq Bucket
bucket_eq = record { beq = bucket_beq; beq_iff = bucket_beq_iff }

-- ClientLimiter
pub record ClientLimiter (L : Type 0) : Type 0 where
  pub limiter : L
  pub last_seen : ℕ

abbrev pub Visitors : Type 0 → Type 0
Visitors L = List (Bucket × ClientLimiter L)

module _ {L : Type 0} (rate : Limiter L) (now : ℕ) where
  -- The limiter of a bucket that may not be there.
  unfoldable pub limiter_of : Bool → Option (ClientLimiter L) → L
  limiter_of auth none = if auth then rate.new_limiter 50 100 else rate.new_limiter 5 10
  limiter_of auth (some v) = v.limiter

  -- getVisitorLimiter and the limiter's Allow: the visitors after it, and whether it allows.
  unfoldable pub rate_limit : String → Bool → Visitors L → Visitors L × Bool
  unfolding limiter_of
  rate_limit ip auth visitors =
      let r = rate.allow now (limiter_of auth (Assoc.lookup (ip, auth) visitors)) in
      (Assoc.insert (ip, auth) (record { limiter = r.0; last_seen = now }) visitors, r.1)

-- The round of cleanupVisitors.
abbrev pub visitor_retention : ℕ
visitor_retention = 180000000000

unfoldable pub cleanup_visitors : {L : Type 0} → ℕ → Visitors L → Visitors L
cleanup_visitors now [] = []
cleanup_visitors now ((bucket, v) ∷ rest) =
    let kept = cleanup_visitors now rest in
    if ltb (v.last_seen + visitor_retention) now then kept else (bucket, v) ∷ kept

pub data Visit : Type 0 where
  visits : ℕ → String → Bool → Visit

-- The visits of one bucket.
unfoldable pub of_bucket : Bucket → List Visit → List Visit
of_bucket bucket [] = []
of_bucket bucket (visits now ip auth ∷ earlier) =
    let rest = of_bucket bucket earlier in
    if (ip, auth) == bucket then visits now ip auth ∷ rest else rest

module _ {L : Type 0} (rate : Limiter L) where
  -- The visits of a list, the last one first.
  unfoldable pub after : List Visit → Visitors L → Visitors L
  unfolding rate_limit
  after [] visitors = visitors
  after (visits now ip auth ∷ earlier) visitors =
      (rate_limit rate now ip auth (after earlier visitors)).0

  abbrev visited : ℕ → Bool → Option (ClientLimiter L) → ClientLimiter L
  visited now auth o = record {
    limiter = (rate.allow now (limiter_of rate now auth o)).0;
    last_seen = now;
  }

  lookup-visited :
      (now : ℕ) (ip : String) (auth : Bool) (bucket : Bucket) (m : Visitors L)
      → ((ip, auth) == bucket) ≡ true
      → Assoc.lookup bucket ((rate_limit rate now ip auth m).0)
        ≡ some (visited now auth (Assoc.lookup bucket m))
  unfolding rate_limit
  lookup-visited now ip auth bucket m p =
      let v = visited now auth (Assoc.lookup (ip, auth) m) in
      Assoc.lookup-insert (ip, auth) bucket v m
      ∙ ap (λ b. if b then some v else Assoc.lookup bucket m) p
      ∙ ap (λ k. some (visited now auth (Assoc.lookup k m)))
          ((bucket_beq_iff (ip, auth) bucket).0 p)

  lookup-elsewhere :
      (now : ℕ) (ip : String) (auth : Bool) (bucket : Bucket) (m : Visitors L)
      → ((ip, auth) == bucket) ≡ false
      → Assoc.lookup bucket ((rate_limit rate now ip auth m).0) ≡ Assoc.lookup bucket m
  unfolding rate_limit
  lookup-elsewhere now ip auth bucket m p =
      let v = visited now auth (Assoc.lookup (ip, auth) m) in
      Assoc.lookup-insert (ip, auth) bucket v m
      ∙ ap (λ b. if b then some v else Assoc.lookup bucket m) p

  -- The other visits neither use up a bucket nor refill it.
  own_visits :
      (bucket : Bucket) (earlier : List Visit) (visitors : Visitors L)
      → Assoc.lookup bucket (after earlier visitors)
        ≡ Assoc.lookup bucket (after (of_bucket bucket earlier) visitors)
  unfolding after of_bucket
  own_visits bucket [] visitors = refl
  own_visits bucket (visits now ip auth ∷ earlier) visitors =
      let own = after (of_bucket bucket earlier) visitors in
      let ih = own_visits bucket earlier visitors in
      elim (Bool-cases ((ip, auth) == bucket)) [
        | inl p ↦
            lookup-visited now ip auth bucket (after earlier visitors) p
            ∙ ap (λ o. some (visited now auth o)) ih
            ∙ sym (lookup-visited now ip auth bucket own p)
            ∙ ap
                (λ b. Assoc.lookup bucket (
                  after
                    (if b
                      then visits now ip auth ∷ of_bucket bucket earlier
                      else of_bucket bucket earlier)
                    visitors))
                (sym p)
        | inr p ↦
            lookup-elsewhere now ip auth bucket (after earlier visitors) p
            ∙ ih
            ∙ ap
                (λ b. Assoc.lookup bucket (
                  after
                    (if b
                      then visits now ip auth ∷ of_bucket bucket earlier
                      else of_bucket bucket earlier)
                    visitors))
                (sym p)
      ]

  -- Whether a visit is allowed, and what it leaves in its bucket, depends on the earlier visits of its
  -- own bucket only: those of the same address with a wrong token, or of other addresses, change
  -- neither.
  pub bucket_is_isolated :
      (now : ℕ) (ip : String) (auth : Bool) (earlier : List Visit) (visitors : Visitors L)
      → let visit = rate_limit rate now ip auth (after earlier visitors) in
        let alone = rate_limit rate now ip auth (after (of_bucket (ip, auth) earlier) visitors) in
        (visit.1 ≡ alone.1) × (Assoc.lookup (ip, auth) visit.0 ≡ Assoc.lookup (ip, auth) alone.0)
  unfolding rate_limit
  bucket_is_isolated now ip auth earlier visitors =
      let same = own_visits (ip, auth) earlier visitors in
      let all = after earlier visitors in
      let own = after (of_bucket (ip, auth) earlier) visitors in
      (
        ap (λ o. (rate.allow now (limiter_of rate now auth o)).1) same,
        Assoc.lookup-insert_self (ip, auth) (visited now auth (Assoc.lookup (ip, auth) all)) all
            ∙ ap (λ o. some (visited now auth o)) same
            ∙ sym (
                Assoc.lookup-insert_self (ip, auth) (visited now auth (Assoc.lookup (ip, auth) own))
                  own),
      )
