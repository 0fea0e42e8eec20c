-- ===== src/World/Run.antt =====
-- Running a program in pieces, and what a run keeps if each call keeps it.
use alertme.Prelude.{ℕ, suc, ◌≡◌, refl}
use alertme.Store.{StoreCmd}
use alertme.Store.Exec.{exec}
use alertme.Prog.{Prog, ret, call, Call, Answer, ◌>>=◌}
use alertme.Prog.Calls.{Calls, stops, calls}
use alertme.World.{Env, World, up, request_lost, run, answer}

pub run-bind :
    {A B : Type 0} (env : Env) (m : Prog A) (f : A → Prog B) (w : World)
    → run env (m >>= f) w ≡ run env (f (run env m w).0) (run env m w).1
unfolding run ◌>>=◌
run-bind env (ret a) f w = refl
run-bind env (call c k) f w = let (r, w') = answer env c w in run-bind env (k r) f w'

module _ (env : Env) {P : Call → Type 0} (R : World → World → Type 0) (R-refl : (w : World) → R w w)
    (R-trans : (u v w : World) → R u v → R v w → R u w)
    (one : (c : Call) (w : World) → P c → R w (answer env c w).1) where
  pub run-keeps : {A : Type 0} {m : Prog A} → Calls P m → (w : World) → R w (run env m w).1
  unfolding run
  run-keeps (stops a) w = R-refl w
  run-keeps (calls c k p t) w =
      let (r, w') = answer env c w in
      R-trans w w' (run env (k r) w').1 (one c w p) (run-keeps (t r) w')

-- No call of the store fails.
pub record HasStore (env : Env) : Type 0 where
  pub store_up : (n : ℕ) → env.store_fault n ≡ up

-- No call of the store or of the queue fails.
pub record IsSteady (env : Env) : Type 0 where
  pub store_up : (n : ℕ) → env.store_fault n ≡ up
  pub queue_up : (n : ℕ) → env.queue_fault n ≡ up

-- No request reaches the queue.
pub record LosesQueue (env : Env) : Type 0 where
  pub queue_lost : (n : ℕ) → env.queue_fault n ≡ request_lost

pub IsSteady-HasStore : {env : Env} → IsSteady env → HasStore env
IsSteady-HasStore s = record { store_up = s.store_up }

-- The world after a call of a store that does not fail.
unfoldable pub stored : Env → StoreCmd → World → World
stored env c w = record w {
  store = (exec (env.reading w.calls) (env.reading_after w.calls) c w.store).1;
  calls = suc w.calls;
}

pub run-ask :
    {A : Type 0} (env : Env) (c : StoreCmd) (f : Answer (Call.on_store c) → Prog A) (w : World)
    → env.store_fault w.calls ≡ up
    → run env (call (Call.on_store c) f) w
      ≡ run env
          (f (exec (env.reading w.calls) (env.reading_after w.calls) c w.store).0)
          (stored env c w)
unfolding run answer stored
run-ask env c f w h = rw h
