-- ===== src/Xray/Crashes.antt =====
-- A recovery of `Monitor` that fails.
use super_proxy.Base.{
  ℕ, false, ◌||◌, some, ◌∷◌, ◌==◌, nat_eq, contains, if◌then◌else◌, ◌≡◌, ◌≢◌, ◌⊎◌, arith, beq_refl,
  ap, ◌∙◌,
}
use super_proxy.Xray.{restarting}
use super_proxy.Xray.Lifecycle.{Runtime, Outside, clear_endpoint, state_eq, state_beq_iff}
use super_proxy.Xray.Monitor.{
  Round, continues, returns, panics, running_exit, crash_exit, recover, handle_exit, await_child,
  monitor_round, count_crash,
}

-- The supervisor once the end of a child is counted.
abbrev pub crashed : ℕ → Runtime → Runtime
unfolding count_crash clear_endpoint
crashed child w = count_crash (clear_endpoint (record w { closed = child ∷ w.closed }))

failed_recovery :
    (o : Outside) (w : Runtime)
    → w.sup.is_stopped ≡ false
    → (o.validates ≡ false) ⊎ (o.launches ≡ false)
    → recover o w ≡ (w, continues)
unfolding recover
failed_recovery o w live h = ground arith

failed_round :
    (o : Outside) (w : Runtime) (child : ℕ)
    → w.sup.is_stopped ≡ false
    → w.sup.process ≡ some child
    → contains w.closed child ≡ false
    → w.sup.state ≢ restarting
    → o.cancelled ≡ false
    → o.while_ending (crashed child w) ≡ crashed child w
    → (o.validates ≡ false) ⊎ (o.launches ≡ false)
    → monitor_round o w ≡ (crashed child w, continues)
unfolding monitor_round await_child handle_exit
failed_round o w child live here fresh other going alone fails =
    let v = clear_endpoint (record w { closed = child ∷ w.closed }) in
    let still : (w.sup.state == restarting) ≡ false =
      ground (arith, state_beq_iff w.sup.state restarting) in
    ap (λ b. if b then (w, returns) else await_child o w.sup.process w) live
    ∙ ap (λ p. await_child o p w) here
    ∙ ap (λ b. if b then (w, panics) else handle_exit o v) fresh
    ∙ ap (λ b. if b then (v, returns) else running_exit o v) live
    ∙ ap (λ b. if b then (o.while_ending v, continues) else crash_exit o v) still
    ∙ ap
        (λ b.
          if b
          then (clear_endpoint (count_crash v), returns)
          else recover o (o.while_ending (count_crash v)))
        going
    ∙ ap (recover o) alone
    ∙ failed_recovery o (crashed child w) live fails

-- A recovery that fails because the configuration is not valid any more, or the command does not start,
-- takes the whole program down: while no other goroutine has acted, the next round waits for the same
-- child, and closes its channel a second time, which panics.
pub failed_recovery_panics :
    (o next : Outside) (w : Runtime) (child : ℕ)
    → w.sup.is_stopped ≡ false
    → w.sup.process ≡ some child
    → contains w.closed child ≡ false
    → w.sup.state ≢ restarting
    → o.cancelled ≡ false
    → o.while_ending (crashed child w) ≡ crashed child w
    → (o.validates ≡ false) ⊎ (o.launches ≡ false)
    → ((monitor_round o w).1 ≡ continues)
      × ((monitor_round next ((monitor_round o w).0)).1 ≡ panics)
unfolding monitor_round await_child
failed_recovery_panics o next w child live here fresh other going alone fails =
    let first = failed_round o w child live here fresh other going alone fails in
    (
      ap (λ r. r.1) first,
      ap (λ (r : Runtime × Round). (monitor_round next (r.0)).1) first
          ∙ ap (λ r. r.1)
              (ap
                  (λ b.
                    if b
                    then (crashed child w, returns)
                    else await_child next w.sup.process (crashed child w))
                  live
                ∙ ap (λ p. await_child next p (crashed child w)) here
                ∙ ap
                    (λ b.
                      if b || contains w.closed child
                      then (crashed child w, panics)
                      else handle_exit next (
                          clear_endpoint
                            (record (crashed child w) { closed = child ∷ child ∷ w.closed })))
                    (beq_refl child)),
    )
