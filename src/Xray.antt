-- ===== src/Xray.antt =====
-- internal/xray/supervisor.go: the supervisor of the Xray process, its state and what it exchanges with
-- Xray. `Tag` stands for the texts that name outbounds and balancers: the numbers in a tag are those
-- that `%d` prints. The routing is in `Routing` and `ReadBack`, its changes in `ActiveSet`, the process
-- in `Lifecycle`.
pub mod Routing
pub mod Slots
pub mod Balancers
pub mod Selectors
pub mod Carried
pub mod ReadBack
pub mod Verified
pub mod ActiveSet
pub mod Transactions
pub mod Changes
pub mod Endpoint
pub mod Lifecycle
pub mod Monitor
pub mod Backoff
pub mod FailClosed
pub mod Crashes
pub mod Published
use super_proxy.Base.{
  ℕ, zero, suc, String, Bool, List, [], ◌∷◌, Option, ◌≡◌, ◌↔◌, ◌&&◌, ◌==◌, nat_eq, string_eq, Eq,
  true, false, refl, sym, ap, subst, ◌∙◌, arith, string_discrete, ℕ_discrete,
}
use super_proxy.Base.Int.{ℤ, pos, negsuc}

-- "", "api", "block", "exit-7", another text after "exit-", "balancer-0-2", and any other text.
pub data Tag : Type 0 where
  absent api block : Tag
  exit : ℤ → Tag
  exit_like : String → Tag
  balancer : List ℕ → Tag
  other : String → Tag

abbrev pub int_beq : ℤ → ℤ → Bool
int_beq (pos a) (pos b) = a == b
int_beq (pos a) (negsuc b) = false
int_beq (negsuc a) (pos b) = false
int_beq (negsuc a) (negsuc b) = a == b

pub int_beq_iff : (a b : ℤ) → (int_beq a b ≡ true) ↔ (a ≡ b)
int_beq_iff (pos a) (pos b) = ground arith
int_beq_iff (pos a) (negsuc b) = ground arith
int_beq_iff (negsuc a) (pos b) = ground arith
int_beq_iff (negsuc a) (negsuc b) = ground arith

instance abbrev pub int_eq : Eq ℤ
int_eq = record { beq = int_beq; beq_iff = int_beq_iff }

abbrev slots_beq : List ℕ → List ℕ → Bool
slots_beq [] [] = true
slots_beq [] (y ∷ ys) = false
slots_beq (x ∷ xs) [] = false
slots_beq (x ∷ xs) (y ∷ ys) = (x == y) && slots_beq xs ys

slots_beq_iff : (xs ys : List ℕ) → (slots_beq xs ys ≡ true) ↔ (xs ≡ ys)
slots_beq_iff [] [] = ground arith
slots_beq_iff [] (y ∷ ys) = ground arith
slots_beq_iff (x ∷ xs) [] = ground arith
slots_beq_iff (x ∷ xs) (y ∷ ys) = ground (arith, slots_beq_iff xs ys)

-- A tag is its kind, a number, slots and a text.
abbrev parts : Tag → ℕ × ℤ × List ℕ × String
parts absent = (0, pos 0, [], "")
parts api = (1, pos 0, [], "")
parts block = (2, pos 0, [], "")
parts (exit k) = (3, k, [], "")
parts (exit_like s) = (4, pos 0, [], s)
parts (balancer slots) = (5, pos 0, slots, "")
parts (other s) = (6, pos 0, [], s)

abbrev of_parts : ℕ × ℤ × List ℕ × String → Tag
of_parts (zero, k, slots, s) = absent
of_parts (suc zero, k, slots, s) = api
of_parts (suc (suc zero), k, slots, s) = block
of_parts (suc (suc (suc zero)), k, slots, s) = exit k
of_parts (suc (suc (suc (suc zero))), k, slots, s) = exit_like s
of_parts (suc (suc (suc (suc (suc zero)))), k, slots, s) = balancer slots
of_parts (suc (suc (suc (suc (suc (suc n))))), k, slots, s) = other s

of_parts-parts : (t : Tag) → of_parts (parts t) ≡ t
of_parts-parts absent = refl
of_parts-parts api = refl
of_parts-parts block = refl
of_parts-parts (exit k) = refl
of_parts-parts (exit_like s) = refl
of_parts-parts (balancer slots) = refl
of_parts-parts (other s) = refl

unfoldable pub tag_beq : Tag → Tag → Bool
tag_beq a b =
    let (kind, k, slots, s) = parts a in
    let (kind', k', slots', s') = parts b in
    (kind == kind') && ((k == k') && (slots_beq slots slots' && (s == s')))

pub tag_beq_iff : (a b : Tag) → (tag_beq a b ≡ true) ↔ (a ≡ b)
unfolding tag_beq
tag_beq_iff a b = (
  λ h.
      sym (of_parts-parts a)
      ∙ ap of_parts (
          ground (
            arith,
            h,
            int_beq_iff (parts a).1 (parts b).1,
            slots_beq_iff (parts a).2 (parts b).2,
            string_eq.beq_iff (parts a).3 (parts b).3,
          ))
      ∙ of_parts-parts b,
  λ e.
      subst (λ t. tag_beq a t ≡ true) e
        (ground (
          arith,
          int_beq_iff (parts a).1 (parts a).1,
          slots_beq_iff (parts a).2 (parts a).2,
          string_eq.beq_iff (parts a).3 (parts a).3,
        )),
)

instance abbrev pub tag_eq : Eq Tag
tag_eq = record { beq = tag_beq; beq_iff = tag_beq_iff }

-- SupervisorState
pub data SupervisorState : Type 0 where
  stopped starting running restarting : SupervisorState

unfoldable pub SupervisorState-discrete : Discrete SupervisorState
SupervisorState-discrete = hlevel

-- PublicEndpoint of internal/xray/profile.go
pub record PublicEndpoint : Type 0 where
  pub address : String
  pub port : ℤ
  pub network : String
  pub tls : Bool
  pub protocol : String

-- Supervisor. `process` is the child that `cmd` holds, by a number; `processDone` and what becomes of
-- the child belong to `Lifecycle`.
pub record Supervisor : Type 0 where
  pub slot_count : ℕ
  pub state : SupervisorState
  pub restarts : ℕ
  pub consecutive_crashes : ℕ
  pub is_stopped : Bool
  pub process : Option ℕ
  pub active_outbounds : Tag → Bool
  pub outbound_marks : Tag → ℤ
  pub vless_enabled : Bool
  pub vless_only443 : Bool
  pub vless_endpoint : Option PublicEndpoint
  pub public_address : String

-- One entry of `rules` in the configuration: "" and `absent` where the key is not there.
pub record Rule : Type 0 where
  pub rule_tag : String
  pub inbound_tag : String
  pub outbound_tag : Tag
  pub balancer_tag : Tag
  pub port : String

pub record Balancer : Type 0 where
  pub tag : Tag
  pub selector : List Tag

pub record RoutingConfig : Type 0 where
  pub balancers : List Balancer
  pub rules : List Rule

-- runtimeRoutingRule
pub record RuntimeRule : Type 0 where
  pub rule_tag : String
  pub tag : Tag
  pub balancer_tag : Tag

-- A line of `xray api bi`, by what is asked of it: whether it contains "Selects:", whether it starts
-- with "- ", and its fields.
pub record Line : Type 0 where
  pub has_selects : Bool
  pub is_item : Bool
  pub fields : List Tag

-- The Xray process as its API shows it: `adrules` may change it, and succeeds or not; `lsrules` and `bi`
-- read it. `writes_file` is whether the temporary file of the rules can be written.
pub record Api (X : Type 0) : Type 0 where
  pub writes_file : X → Bool
  pub adrules : RoutingConfig → X → X × Bool
  pub lsrules : X → Option (List RuntimeRule)
  pub bi : Tag → X → Option (List Line)
