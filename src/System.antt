-- ===== src/System.antt =====
-- Handlers at work at once: the lambdas of the API and of the pager share the table and the queue
-- and nothing else, so a run of the system is an interleaving of the calls that their handlers
-- make. A handler's result goes to its own caller, and is dropped here.
pub mod Interleave
pub mod Handlers
pub mod Stores
pub mod Lifecycle
use alertme.Prelude.{⊤, List, [], ◌∷◌}
use alertme.Prog.{Call, Answer, Prog, ret, call, ◌>>=◌}
use alertme.World.{Env, World, answer}

pub record System : Type 0 where
  pub world : World
  pub threads : List (Prog ⊤)

-- One of the threads makes its next call.
pub data Turn (env : Env) (w : World) : List (Prog ⊤) → World → List (Prog ⊤) → Type 0 where
  here :
      (c : Call) (k : Answer c → Prog ⊤) (ts : List (Prog ⊤))
      → Turn env w (call c k ∷ ts) (answer env c w).1 (k (answer env c w).0 ∷ ts)
  there :
      {t : Prog ⊤} {ts us : List (Prog ⊤)} {w' : World}
      → Turn env w ts w' us
      → Turn env w (t ∷ ts) w' (t ∷ us)

unfoldable pub forget : {A : Type 0} → Prog A → Prog ⊤
unfolding ◌>>=◌
forget m = m >>= λ _. ret tt

-- From one state of the system to a later one: handlers that `Admits` start at any time, as often
-- as they like (SQS delivers a task at least once), and take turns in any order.
pub data Reach (env : Env) (Admits : Prog ⊤ → Type 0) (s : System) : System → Type 0 where
  begin : Reach env Admits s s
  start :
      {t : System} (p : Prog ⊤)
      → Reach env Admits s t
      → Admits p
      → Reach env Admits s (record t { threads = p ∷ t.threads })
  turn :
      {t : System} {w : World} {us : List (Prog ⊤)}
      → Reach env Admits s t
      → Turn env t.world t.threads w us
      → Reach env Admits s (record { world = w; threads = us })
