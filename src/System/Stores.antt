-- ===== src/System/Stores.antt =====
-- Relations between the stores at two moments of a run.
use alertme.Prelude.{◌≡◌, []}
use alertme.Model.{Time}
use alertme.Store.{StoreCmd, Result}
use alertme.Store.Contract.{Obeys}
use alertme.Store.Exec.{exec}
use alertme.Store.Fake.{Store}
use alertme.Prog.{
  Call, on_store, has_capability, enqueue, get_sender, send, now, random_id, random_invite_code,
}
use alertme.Prog.Calls.{ObeysCall}
use alertme.World.{Env, World, Fault, up, request_lost, answer_lost, under, answer}
use alertme.System.{System}
use alertme.System.Handlers.{Run, Run-keeps}

-- What each command under contract keeps, each moment of a run keeps, whatever calls fail.
module _ (R : Store → Store → Type 0) (R-refl : (s : Store) → R s s)
    (R-trans : (s t u : Store) → R s t → R t u → R s u)
    (one : (checked at : Time) (c : StoreCmd) (s : Store)
      → Obeys c
      → R s (exec checked at c s).1) where
  under-keeps :
      {A : Type 0} (f : Fault) (s : Store) (r : Result A × Store) → R s r.1 → R s (under f r s).1
  under-keeps up s r h = h
  under-keeps request_lost s r h = R-refl s
  under-keeps answer_lost s r h = h

  pub answer-keeps :
      (env : Env) (c : Call) (w : World) → ObeysCall c → R w.store (answer env c w).1.store
  unfolding answer
  answer-keeps env (on_store c) w h =
      under-keeps (env.store_fault w.calls) w.store _
        (one (env.reading w.calls) (env.reading_after w.calls) c w.store h)
  answer-keeps env (has_capability c) w h = R-refl w.store
  answer-keeps env (enqueue t d) w h = R-refl w.store
  answer-keeps env get_sender w h = R-refl w.store
  answer-keeps env (send d m) w h = R-refl w.store
  answer-keeps env now w h = R-refl w.store
  answer-keeps env random_id w h = R-refl w.store
  answer-keeps env (random_invite_code k) w h = R-refl w.store

  pub stores_keep :
      (env : Env) {a s t : System}
      → a.threads ≡ []
      → Run env a s
      → Run env s t
      → R s.world.store t.world.store
  stores_keep env idle r q =
      Run-keeps env (λ v w. R v.store w.store) (λ w. R-refl w.store)
        (λ u v w. R-trans u.store v.store w.store) (answer-keeps env) idle r q
