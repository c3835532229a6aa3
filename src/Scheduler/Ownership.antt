-- ===== src/Scheduler/Ownership.antt =====
-- Who holds a tunnel: the scheduler's active, draining and standby collections seen alone, the moves
-- between them, and the rule that a tunnel is in one place at a time.
use super_proxy.Base.{ℕ, false, ◌≡◌, ◌≢◌, subst, none, some, List, [], ◌∷◌, arith, contains, nat_eq}
use super_proxy.Base.Assoc
use super_proxy.Scheduler.State.{Scheduler}

pub record View : Type 0 where
  pub active : List (ℕ × ℕ)
  pub draining : List (ℕ × ℕ)
  pub standby : List ℕ

abbrev pub view : Scheduler → View
view s = record { active = s.active_slots; draining = s.draining_slots; standby = s.standby_nodes }

pub data Move (v w : View) : Type 0 where
  keep : w ≡ v → Move v w
  -- an active tunnel is dropped
  drop_active : (slot : ℕ) → w ≡ record v { active = Assoc.delete slot v.active } → Move v w
  -- an active tunnel starts to drain
  start_drain :
      (slot t : ℕ)
      → Assoc.lookup slot v.active ≡ some t
      → w ≡ record v {
        active = Assoc.delete slot v.active;
        draining = Assoc.insert slot t v.draining;
      }
      → Move v w
  -- a draining tunnel is done
  end_drain : (slot : ℕ) → w ≡ record v { draining = Assoc.delete slot v.draining } → Move v w
  -- the oldest standby tunnel is promoted to an empty slot
  promote :
      (slot t : ℕ) (rest : List ℕ)
      → Assoc.lookup slot v.active ≡ none
      → v.standby ≡ t ∷ rest
      → w ≡ record v { active = Assoc.insert slot t v.active; standby = rest }
      → Move v w
  -- the oldest standby tunnel is dropped
  discard :
      (t : ℕ) (rest : List ℕ) → v.standby ≡ t ∷ rest → w ≡ record v { standby = rest } → Move v w

pub data Moves (v : View) : View → Type 0 where
  done : Moves v v
  after : {u w : View} → Moves v u → Move u w → Moves v w

pub follow : {u v w : View} → Moves u v → Moves v w → Moves u w
follow p done = p
follow p (after q m) = after (follow p q) m

abbrev Once : List ℕ → Type 0
Once [] = Unit {0}
Once (t ∷ ts) = (contains ts t ≡ false) × Once ts

first-Once :
    (ts : List ℕ) (t : ℕ) (rest : List ℕ)
    → ts ≡ t ∷ rest
    → Once ts
    → (contains rest t ≡ false) × Once rest
first-Once ts t rest e h = subst Once e h

-- No tunnel is in two places.
pub record Exclusive (v : View) : Type 0 where
  pub active_once :
      (i j t : ℕ) → Assoc.lookup i v.active ≡ some t → Assoc.lookup j v.active ≡ some t → i ≡ j
  pub draining_once :
      (i j t : ℕ) → Assoc.lookup i v.draining ≡ some t → Assoc.lookup j v.draining ≡ some t → i ≡ j
  pub active_not_draining :
      (i j t : ℕ) → Assoc.lookup i v.active ≡ some t → Assoc.lookup j v.draining ≢ some t
  pub active_not_standby :
      (i t : ℕ) → Assoc.lookup i v.active ≡ some t → contains v.standby t ≡ false
  pub draining_not_standby :
      (i t : ℕ) → Assoc.lookup i v.draining ≡ some t → contains v.standby t ≡ false
  pub standby_once : Once v.standby

pub Move-Exclusive : {v w : View} → Move v w → Exclusive v → Exclusive w
Move-Exclusive {v} (keep e) x = rw e x
Move-Exclusive {v} (drop_active slot e) x = rw e (record {
  active_once = λ i j t p q.
      x.active_once i j t (Assoc.delete_inv slot i v.active p).1
        (Assoc.delete_inv slot j v.active q).1;
  draining_once = x.draining_once;
  active_not_draining =
      λ i j t p. x.active_not_draining i j t (Assoc.delete_inv slot i v.active p).1;
  active_not_standby = λ i t p. x.active_not_standby i t (Assoc.delete_inv slot i v.active p).1;
  draining_not_standby = x.draining_not_standby;
  standby_once = x.standby_once;
})
Move-Exclusive {v} (start_drain slot t there e) x = rw e (record {
  active_once = λ i j u p q.
      x.active_once i j u (Assoc.delete_inv slot i v.active p).1
        (Assoc.delete_inv slot j v.active q).1;
  draining_once = λ i j u p q. ground (
    arith,
    Assoc.insert_inv slot i t v.draining p,
    Assoc.insert_inv slot j t v.draining q,
    x.active_not_draining slot j t there,
    x.active_not_draining slot i t there,
    x.draining_once i j u,
  );
  active_not_draining = λ i j u p q. ground (
    arith,
    Assoc.delete_inv slot i v.active p,
    Assoc.insert_inv slot j t v.draining q,
    x.active_once i slot u,
    x.active_not_draining i j u,
  );
  active_not_standby = λ i u p. x.active_not_standby i u (Assoc.delete_inv slot i v.active p).1;
  draining_not_standby = λ i u p. ground (
    arith,
    Assoc.insert_inv slot i t v.draining p,
    x.active_not_standby slot t there,
    x.draining_not_standby i u,
  );
  standby_once = x.standby_once;
})
Move-Exclusive {v} (end_drain slot e) x = rw e (record {
  active_once = x.active_once;
  draining_once = λ i j t p q.
      x.draining_once i j t (Assoc.delete_inv slot i v.draining p).1
        (Assoc.delete_inv slot j v.draining q).1;
  active_not_draining =
      λ i j t p q. x.active_not_draining i j t p (Assoc.delete_inv slot j v.draining q).1;
  active_not_standby = x.active_not_standby;
  draining_not_standby =
      λ i t p. x.draining_not_standby i t (Assoc.delete_inv slot i v.draining p).1;
  standby_once = x.standby_once;
})
Move-Exclusive {v} (promote slot t rest empty first e) x = rw e (record {
  active_once = λ i j u p q. ground (
    arith,
    Assoc.insert_inv slot i t v.active p,
    Assoc.insert_inv slot j t v.active q,
    x.active_not_standby i t,
    x.active_not_standby j t,
    x.active_once i j u,
  );
  draining_once = x.draining_once;
  active_not_draining = λ i j u p q. ground (
    arith,
    Assoc.insert_inv slot i t v.active p,
    x.draining_not_standby j t,
    x.active_not_draining i j u,
  );
  active_not_standby = λ i u p. ground (
    arith,
    Assoc.insert_inv slot i t v.active p,
    first-Once v.standby t rest first x.standby_once,
    x.active_not_standby i u,
  );
  draining_not_standby = λ i u p. ground (arith, x.draining_not_standby i u p);
  standby_once = (first-Once v.standby t rest first x.standby_once).1;
})
Move-Exclusive {v} (discard t rest first e) x = rw e (record {
  active_once = x.active_once;
  draining_once = x.draining_once;
  active_not_draining = x.active_not_draining;
  active_not_standby = λ i u p. ground (arith, x.active_not_standby i u p);
  draining_not_standby = λ i u p. ground (arith, x.draining_not_standby i u p);
  standby_once = (first-Once v.standby t rest first x.standby_once).1;
})

pub Moves-Exclusive : {v w : View} → Moves v w → Exclusive v → Exclusive w
Moves-Exclusive done x = x
Moves-Exclusive (after p m) x = Move-Exclusive m (Moves-Exclusive p x)
