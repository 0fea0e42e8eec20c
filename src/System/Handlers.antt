-- ===== src/System/Handlers.antt =====
-- The threads of the system: requests that the API serves, and batches that the pager is handed,
-- with any messages in them, so also duplicates and messages out of order.
use alertme.Prelude.{String, ⊤, ◌≡◌, List, [], Option, Map}
use alertme.Model.{Time}
use alertme.Queue.{PageTask}
use alertme.Prog.{Call, Prog}
use alertme.Prog.Calls.{Calls, ObeysCall}
use alertme.World.{Env, World, answer}
use alertme.Pager.{handle_batch}
use alertme.Pager.Contract.{handle_batch-Calls}
use alertme.Api.Router.{Route, serve}
use alertme.Api.Contract.{serve-Calls}
use alertme.System.{System, Reach, begin, start, turn, forget}
use alertme.System.Interleave.{Calls-forget, Reach-keeps}

pub data IsHandler : Prog ⊤ → Type 0 where
  request :
      (parse : String → Option Time) (dev_user dev_email : String) (jwt : Option (Map String))
      (route : Route)
      → IsHandler (forget (serve parse dev_user dev_email jwt route))
  batch : (records : List (String × Option PageTask)) → IsHandler (forget (handle_batch records))

-- The runs of the system.
abbrev pub Run : Env → System → System → Type 0
Run env = Reach env IsHandler

pub IsHandler-Calls : {p : Prog ⊤} → IsHandler p → Calls ObeysCall p
IsHandler-Calls (request parse dev_user dev_email jwt route) =
    Calls-forget (serve-Calls parse dev_user dev_email jwt route)
IsHandler-Calls (batch records) = Calls-forget (handle_batch-Calls records)

Run-Reach : {env : Env} {s t : System} → Run env s t → Reach env (Calls ObeysCall) s t
Run-Reach begin = begin
Run-Reach (start p r h) = start p (Run-Reach r) (IsHandler-Calls h)
Run-Reach (turn r m) = turn (Run-Reach r) m

-- A relation that each call of a program under contract keeps holds between any two moments of a
-- run that began with no handler at work.
module _ (env : Env) (R : World → World → Type 0) (R-refl : (w : World) → R w w)
    (R-trans : (u v w : World) → R u v → R v w → R u w)
    (one : (c : Call) (w : World) → ObeysCall c → R w (answer env c w).1) where
  pub Run-keeps : {a s t : System} → a.threads ≡ [] → Run env a s → Run env s t → R s.world t.world
  Run-keeps {a} idle r q =
      let (_, kept) = Reach-keeps env R R-refl R-trans one (Run-Reach r) (rw idle tt) in
      (Reach-keeps env R R-refl R-trans one (Run-Reach q) kept).0
