-- ===== src/System/Interleave.antt =====
-- What every interleaving of handlers keeps, if each call of theirs keeps it.
use alertme.Prelude.{⊤, List, All}
use alertme.Prog.{Call, Prog, ret}
use alertme.Prog.Calls.{Calls, stops, calls, Calls-bind}
use alertme.World.{Env, World, answer}
use alertme.System.{System, Turn, here, there, Reach, begin, start, turn, forget}

pub Calls-forget : {P : Call → Type 0} {A : Type 0} {m : Prog A} → Calls P m → Calls P (forget m)
unfolding forget
Calls-forget h = Calls-bind (λ _. ret tt) h (λ a. stops tt)

-- `R` relates the worlds before and after any call that keeps `P`.
module _ (env : Env) {P : Call → Type 0} (R : World → World → Type 0) (R-refl : (w : World) → R w w)
    (R-trans : (u v w : World) → R u v → R v w → R u w)
    (one : (c : Call) (w : World) → P c → R w (answer env c w).1) where
  Turn-keeps :
      {w w' : World} {ts us : List (Prog ⊤)}
      → Turn env w ts w' us
      → All (Calls P) ts
      → R w w' × All (Calls P) us
  Turn-keeps {w} (here c k ts) (calls _ _ p t, rest) = (one c w p, (t (answer env c w).0, rest))
  Turn-keeps (there m) (h, rest) = let (r, kept) = Turn-keeps m rest in (r, (h, kept))

  pub Reach-keeps :
      {s t : System}
      → Reach env (Calls P) s t
      → All (Calls P) s.threads
      → R s.world t.world × All (Calls P) t.threads
  Reach-keeps {s} begin h = (R-refl s.world, h)
  Reach-keeps (start p r a) h = let (k, l) = Reach-keeps r h in (k, (a, l))
  Reach-keeps {s} (turn {t = t} {w = w} r m) h =
      let (k, l) = Reach-keeps r h in
      let (k', l') = Turn-keeps m l in (R-trans s.world t.world w k k', l')
