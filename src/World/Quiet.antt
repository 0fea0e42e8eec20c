-- ===== src/World/Quiet.antt =====
-- Calls that write no page and enqueue nothing.
use alertme.Prelude.{⊤, ◌≡◌, refl, ◌∙◌}
use alertme.Store.{Result}
use alertme.Store.Fake.{Store}
use alertme.Store.Fake.Frame.{WritesNoPage, SamePages, frame}
use alertme.Prog.{
  Call, Prog, on_store, has_capability, enqueue, get_sender, send, now, random_id,
  random_invite_code,
}
use alertme.Prog.Calls.{Calls}
use alertme.World.{Env, World, Fault, up, request_lost, answer_lost, under, answer, run}
use alertme.World.Run.{run-keeps}

abbrev pub IsQuiet : Call → Type 0
IsQuiet (on_store c) = WritesNoPage c
IsQuiet (enqueue t d) = ⊥
IsQuiet c = ⊤

pub record SameWork (v w : World) : Type 0 where
  pub pages : w.store.pages ≡ v.store.pages
  pub idem : w.store.idem ≡ v.store.idem
  pub tasks : w.tasks ≡ v.tasks

SameWork-refl : (w : World) → SameWork w w
SameWork-refl w = record { pages = refl; idem = refl; tasks = refl }

SameWork-trans : (u v w : World) → SameWork u v → SameWork v w → SameWork u w
SameWork-trans u v w a b = record {
  pages = b.pages ∙ a.pages;
  idem = b.idem ∙ a.idem;
  tasks = b.tasks ∙ a.tasks;
}

under-SamePages :
    {A : Type 0} (f : Fault) (s : Store) (r : Result A × Store)
    → SamePages s r.1
    → SamePages s (under f r s).1
under-SamePages up s r h = h
under-SamePages request_lost s r h = record { pages = refl; idem = refl }
under-SamePages answer_lost s r h = h

answer-SameWork : (env : Env) (c : Call) (w : World) → IsQuiet c → SameWork w (answer env c w).1
unfolding answer
answer-SameWork env (on_store c) w h =
    let kept =
      under-SamePages (env.store_fault w.calls) w.store _
        (frame (env.reading w.calls) (env.reading_after w.calls) c w.store h) in
    record { pages = kept.pages; idem = kept.idem; tasks = refl }
answer-SameWork env (has_capability c) w h = record { pages = refl; idem = refl; tasks = refl }
answer-SameWork env (enqueue t d) w h = absurd h
answer-SameWork env get_sender w h = record { pages = refl; idem = refl; tasks = refl }
answer-SameWork env (send d m) w h = record { pages = refl; idem = refl; tasks = refl }
answer-SameWork env now w h = record { pages = refl; idem = refl; tasks = refl }
answer-SameWork env random_id w h = record { pages = refl; idem = refl; tasks = refl }
answer-SameWork env (random_invite_code k) w h = record { pages = refl; idem = refl; tasks = refl }

-- A program of quiet calls, whatever fails, leaves the pages, the keys and the queue as they are.
pub run-SameWork :
    {A : Type 0} (env : Env) {m : Prog A}
    → Calls IsQuiet m
    → (w : World) → SameWork w (run env m w).1
run-SameWork env = run-keeps env SameWork SameWork-refl SameWork-trans (answer-SameWork env)
