-- ===== src/Xray/Monitor.antt =====
-- internal/xray/supervisor.go: monitorLoop, one round of it at a time. A round starts when the child that
-- it waits for has ended.
use super_proxy.Base.{
  ℕ, suc, ◌-◌, ltb, ◌&&◌, ◌||◌, not, Option, none, some, ◌∷◌, ◌==◌, nat_eq, if◌then◌else◌, contains,
}
use super_proxy.Base.Int.{ℤ, pos, negsuc, shift_one}
use super_proxy.Xray.{Supervisor, restarting, running}
use super_proxy.Xray.Lifecycle.{Runtime, Outside, clear_endpoint, start_process, come_up, state_eq}

-- How a round ends: the loop goes on, it returns, or it panics.
pub data Round : Type 0 where
  continues returns panics : Round

-- `backoffSeconds > 30 || backoffSeconds <= 0`
unfoldable pub clamp : ℤ → ℕ
clamp (pos n) = if ltb 30 n || (n == 0) then 30 else n
clamp (negsuc n) = 30

-- The seconds before a restart, after that many crashes in a row.
unfoldable pub backoff_seconds : ℕ → ℕ
unfolding shift_one clamp
backoff_seconds crashes = clamp (shift_one (crashes - 1))

-- An unexpected end: it is counted, and after the backoff, in which other goroutines go on, the child
-- is started again.
unfoldable pub count_crash : Runtime → Runtime
count_crash w = record w {
  sup = record w.sup {
    consecutive_crashes = suc w.sup.consecutive_crashes;
    restarts = suc w.sup.restarts;
    state = restarting;
  };
}

module _ (o : Outside) where
  -- From the launch of a new child on; `while_waiting` is what happens until its listeners are ready.
  unfoldable pub recover : Runtime → Runtime × Round
  unfolding start_process come_up
  recover w =
      if not o.validates
      then (w, continues)
      else if w.sup.is_stopped
      then (w, returns)
      else if not o.launches
      then (w, continues)
      else if o.ready
      then (come_up o (o.while_waiting (start_process w)), continues)
      else (o.while_waiting (start_process w), continues)

  unfoldable pub crash_exit : Runtime → Runtime × Round
  unfolding recover count_crash clear_endpoint
  crash_exit w =
      if o.cancelled
      then (clear_endpoint (count_crash w), returns)
      else recover (o.while_ending (count_crash w))

  unfoldable pub running_exit : Runtime → Runtime × Round
  unfolding crash_exit
  running_exit w = if w.sup.state == restarting then (o.while_ending w, continues) else crash_exit w

  unfoldable pub handle_exit : Runtime → Runtime × Round
  unfolding running_exit
  handle_exit w = if w.sup.is_stopped then (w, returns) else running_exit w

  -- A channel that is closed already panics when it is closed again.
  unfoldable pub await_child : Option ℕ → Runtime → Runtime × Round
  unfolding handle_exit clear_endpoint
  await_child none w = (w, returns)
  await_child (some child) w =
      if contains w.closed child
      then (w, panics)
      else handle_exit (clear_endpoint (record w { closed = child ∷ w.closed }))

  -- One round of monitorLoop
  unfoldable pub monitor_round : Runtime → Runtime × Round
  unfolding await_child
  monitor_round w = if w.sup.is_stopped then (w, returns) else await_child w.sup.process w

-- The goroutine that waits five minutes after a recovery.
unfoldable pub stable : ℕ → Supervisor → Supervisor
stable current_attempt s =
    if (s.consecutive_crashes == current_attempt) && (s.state == running)
    then record s { consecutive_crashes = 0 }
    else s
