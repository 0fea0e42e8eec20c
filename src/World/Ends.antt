-- ===== src/World/Ends.antt =====
-- Programs that enqueue one task at most, as the last thing that they do.
use alertme.Prelude.{
  ℕ, ◌≤◌, ◌*◌, ⊤, Bool, true, false, ◌≡◌, refl, ◌∙◌, ap, ◌⊎◌, inl, inr, List, [], ◌∷◌, ◌++◌,
  if◌then◌else◌,
}
use alertme.Nag.{second}
use alertme.Store.{Result, ok}
use alertme.Queue.{PageTask}
use alertme.Prog.{
  Call, Answer, Prog, ret, call, on_store, has_capability, enqueue, get_sender, send, now,
  random_id, random_invite_code, ◌>>=◌,
}
use alertme.Prog.Calls.{Calls, stops, calls}
use alertme.World.{
  Env, World, EnqueuedTask, Fault, up, request_lost, answer_lost, under, push_task, answer, run,
}

abbrev pub IsIdle : Call → Type 0
IsIdle (enqueue t d) = ⊥
IsIdle c = ⊤

answer-tasks : (env : Env) (c : Call) (w : World) → IsIdle c → (answer env c w).1.tasks ≡ w.tasks
unfolding answer
answer-tasks env (on_store c) w h = refl
answer-tasks env (has_capability c) w h = refl
answer-tasks env (enqueue t d) w h = absurd h
answer-tasks env get_sender w h = refl
answer-tasks env (send d m) w h = refl
answer-tasks env now w h = refl
answer-tasks env random_id w h = refl
answer-tasks env (random_invite_code k) w h = refl

-- Programs that enqueue `next` once at most, within what SQS can delay, and last of all.
pub data Ends (next : PageTask) : Prog (Result ⊤) → Type 0 where
  ends : (a : Result ⊤) → Ends next (ret a)
  goes_on :
      (c : Call) (k : Answer c → Prog (Result ⊤))
      → IsIdle c
      → ((r : Answer c) → Ends next (k r))
      → Ends next (call c k)
  enqueues : (d : ℕ) → d ≤ 900 * second → Ends next (call (enqueue next d) ret)

module _ (next : PageTask) {A : Type 0} where
  pub Ends-after :
      {m : Prog A} (f : A → Prog (Result ⊤))
      → Calls IsIdle m
      → ((a : A) → Ends next (f a))
      → Ends next (m >>= f)
  unfolding ◌>>=◌
  Ends-after f (stops a) h = h a
  Ends-after f (calls c k p t) h = goes_on c (λ r. k r >>= f) p (λ r. Ends-after f (t r) h)

module _ (next : PageTask) where
  pub Ends-if :
      (b : Bool) {m n : Prog (Result ⊤)}
      → Ends next m
      → Ends next n
      → Ends next (if b then m else n)
  Ends-if true h k = h
  Ends-if false h k = k

-- What the queue holds after such a program, whatever fails.
abbrev pub OneMore : PageTask → List EnqueuedTask → List EnqueuedTask → Type 0
OneMore next before after =
    (after ≡ before)
    ⊎ ((d : ℕ) × (d ≤ 900 * second) × (after ≡ before ++ record { task = next; delay = d } ∷ []))

under-OneMore :
    (f : Fault) (next : PageTask) (d : ℕ) (ts : List EnqueuedTask)
    → d ≤ 900 * second
    → OneMore next ts (under f (ok tt, ts ++ record { task = next; delay = d } ∷ []) ts).1
under-OneMore up next d ts short = inr (d, short, refl)
under-OneMore request_lost next d ts short = inl refl
under-OneMore answer_lost next d ts short = inr (d, short, refl)

pub run-OneMore :
    (env : Env) (next : PageTask) {m : Prog (Result ⊤)}
    → Ends next m
    → (w : World) → OneMore next w.tasks (run env m w).1.tasks
unfolding run answer push_task
run-OneMore env next (ends a) w = inl refl
run-OneMore env next (goes_on c k idle t) w =
    let same = answer-tasks env c w idle in
    elim (run-OneMore env next (t (answer env c w).0) (answer env c w).1) [
      | inl e ↦ inl (e ∙ same)
      | inr (d, short, e) ↦
          inr (d, short, e ∙ ap (λ l. l ++ record { task = next; delay = d } ∷ []) same)
    ]
run-OneMore env next (enqueues d short) w =
    under-OneMore (env.queue_fault w.calls) next d w.tasks short
