-- ===== src/Refresh.antt =====
-- internal/discovery/coordinator.go: one refresh at a time. The goroutine of a refresh is in flight from
-- `trigger` to `finish`; steps of different callers interleave in any order.
use super_proxy.Base.{
  ℕ, suc, ◌-◌, ◌≤◌, ◌==◌, nat_eq, not, ◌&&◌, String, Bool, true, false, Option, none, some,
  if◌then◌else◌, ◌≡◌, arith, refl,
}

pub record RefreshResult : Type 0 where
  pub fetched : ℕ
  pub accepted : ℕ
  pub rejected : ℕ

pub record RefreshStatus : Type 0 where
  pub running : Bool
  pub source : String
  pub last_started : ℕ
  pub last_completed : ℕ
  pub last_error : String
  pub last_result : RefreshResult

-- The coordinator, and how many of its goroutines are between their start and their end.
pub record Coordinator : Type 0 where
  pub has_refresh : Bool
  pub status : RefreshStatus
  pub in_flight : ℕ

abbrev pub no_result : RefreshResult
no_result = record { fetched = 0; accepted = 0; rejected = 0 }

abbrev pub no_status : String → RefreshStatus
no_status err = record {
  running = false;
  source = "";
  last_started = 0;
  last_completed = 0;
  last_error = err;
  last_result = no_result;
}

-- NewRefreshCoordinator
unfoldable pub new_refresh_coordinator : Bool → Coordinator
new_refresh_coordinator has_refresh = record {
  has_refresh = has_refresh;
  status = no_status "";
  in_flight = 0;
}

-- Trigger: the coordinator after it, the status that it returns, and whether it started.
unfoldable pub trigger : ℕ → String → Coordinator → Coordinator × RefreshStatus × Bool
trigger now source c =
    if not c.has_refresh
    then (c, no_status "discovery refresh is unavailable", false)
    else if c.status.running
    then (c, c.status, false)
    else (let begun = record c.status {
      running = true;
      source = source;
      last_started = now;
      last_error = "";
    } in
        (record c { status = begun; in_flight = suc c.in_flight }, begun, true))

-- The end of the goroutine, where one is in flight.
unfoldable pub finish : ℕ → RefreshResult → Option String → Coordinator → Coordinator
finish now result err c = record c {
  status = record c.status {
    running = false;
    last_completed = now;
    last_result = result;
    last_error = elim err [ none ↦ c.status.last_error | some e ↦ e ];
  };
  in_flight = c.in_flight - 1;
}

pub data Step : Coordinator → Coordinator → Type 0 where
  triggers : {c : Coordinator} (now : ℕ) (source : String) → Step c ((trigger now source c).0)
  finishes :
      {c : Coordinator} (now : ℕ) (result : RefreshResult) (err : Option String)
      → 1 ≤ c.in_flight
      → Step c (finish now result err c)

pub data Reaches : Coordinator → Coordinator → Type 0 where
  here : {c : Coordinator} → Reaches c c
  onward : {a b c : Coordinator} → Reaches a b → Step b c → Reaches a c

-- A goroutine is in flight exactly while the status says so.
unfoldable pub IsSerial : Coordinator → Type 0
IsSerial c = c.in_flight ≡ (if c.status.running then 1 else 0)

Step-IsSerial : {b c : Coordinator} → Step b c → IsSerial b → IsSerial c
unfolding IsSerial trigger finish
Step-IsSerial (triggers {c} now source) h = ground (arith, h)
Step-IsSerial (finishes {c} now result err some_run) h = ground (arith, h, some_run)

Reaches-IsSerial : {a b : Coordinator} → Reaches a b → IsSerial a → IsSerial b
Reaches-IsSerial here h = h
Reaches-IsSerial (onward path step) h = Step-IsSerial step (Reaches-IsSerial path h)

-- However triggers and ends of refreshes interleave, there is never more than one refresh under way, and
-- there is one exactly while the status says that it runs. A trigger starts one exactly when there is a
-- refresh function and none is under way.
pub refreshes_serial :
    (has_refresh : Bool) (c : Coordinator) (now : ℕ) (source : String)
    → Reaches (new_refresh_coordinator has_refresh) c
    → (c.in_flight ≤ 1)
      × (c.in_flight ≡ (if c.status.running then 1 else 0))
      × ((trigger now source c).2 ≡ (c.has_refresh && (c.in_flight == 0)))
unfolding new_refresh_coordinator IsSerial trigger
refreshes_serial has_refresh c now source path =
    let serial = Reaches-IsSerial path refl in
    (ground (arith, serial), serial, ground (arith, serial))
