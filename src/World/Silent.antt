-- ===== src/World/Silent.antt =====
-- Calls that push nothing.
use alertme.Prelude.{⊤, ◌≡◌, refl, ◌∙◌}
use alertme.Prog.{
  Call, Prog, on_store, has_capability, enqueue, get_sender, send, now, random_id,
  random_invite_code,
}
use alertme.Prog.Calls.{Calls}
use alertme.World.{Env, World, answer, run}
use alertme.World.Run.{run-keeps}

abbrev pub IsSilent : Call → Type 0
IsSilent (send d n) = ⊥
IsSilent c = ⊤

answer-pushes :
    (env : Env) (c : Call) (w : World) → IsSilent c → (answer env c w).1.pushes ≡ w.pushes
unfolding answer
answer-pushes env (send d n) w h = absurd h
answer-pushes env (on_store c) w h = refl
answer-pushes env (has_capability c) w h = refl
answer-pushes env (enqueue t d) w h = refl
answer-pushes env get_sender w h = refl
answer-pushes env now w h = refl
answer-pushes env random_id w h = refl
answer-pushes env (random_invite_code k) w h = refl

-- A program of silent calls pushes nothing.
pub run-pushes :
    {A : Type 0} (env : Env) {m : Prog A}
    → Calls IsSilent m
    → (w : World) → (run env m w).1.pushes ≡ w.pushes
run-pushes env =
    run-keeps env (λ v w. w.pushes ≡ v.pushes) (λ w. refl) (λ u v w a b. b ∙ a) (answer-pushes env)
