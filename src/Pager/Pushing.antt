-- ===== src/Pager/Pushing.antt =====
-- Steps 4 and 5 of the pager: what is sent, and what is left alone.
use mathlib.Core.List.{append-nil, append_assoc}
use alertme.Prelude.{ℕ, ◌≢◌, ⊤, ◌≡◌, refl, sym, ◌∙◌, ap, List, [], ◌∷◌, ◌++◌, true}
use alertme.Model.{Time, Device, Page}
use alertme.Store.{Result, ok, err}
use alertme.Queue.{PageTask}
use alertme.Push.{Notification, SendResult, sent, token_gone, failed}
use alertme.Prog.{Prog, call, send, get_sender}
use alertme.Prog.Calls.{Calls, stops, calls, Calls-bind, Calls-if}
use alertme.World.{Env, World, SenderCell, ready, unset, broken, sender_cell, answer, run}
use alertme.World.Run.{run-bind, run-ask, HasStore, stored}
use alertme.World.Quiet.{IsQuiet}
use alertme.World.Silent.{IsSilent, run-pushes}
use alertme.Pager.{prune, push_to, with_sender, sender_name, notify}
use alertme.Store
use alertme.Store.Exec.{exec}
use alertme.Store.Fake.{get_user}

prune-IsQuiet : (o : SendResult) (d : Device) → Calls IsQuiet (prune o d)
unfolding prune
prune-IsQuiet sent d = stops _
prune-IsQuiet failed d = stops _
prune-IsQuiet token_gone d =
    calls _ _ tt (λ can. Calls-if can (calls _ _ tt (λ r. stops _)) (stops _))

push_to-IsQuiet : (ds : List Device) (n : Notification) → Calls IsQuiet (push_to ds n)
unfolding push_to
push_to-IsQuiet [] n = stops _
push_to-IsQuiet (d ∷ ds) n =
    calls _ _ tt (λ o. Calls-bind _ (prune-IsQuiet o d) (λ _. push_to-IsQuiet ds n))

with_sender-IsQuiet :
    (ds : List Device) (n : Notification) (r : Result ⊤) → Calls IsQuiet (with_sender ds n r)
with_sender-IsQuiet ds n (ok _) = Calls-bind _ (push_to-IsQuiet ds n) (λ _. stops _)
with_sender-IsQuiet ds n (err e) = stops _

-- Whatever the pushes end with, no page is written and nothing is enqueued before step 6.
pub notify-IsQuiet :
    (task : PageTask) (page : Page) (at : Time) (ds : List Device)
    → Calls IsQuiet (notify task page at ds)
unfolding notify
notify-IsQuiet task page at [] = calls _ _ tt (λ r. stops _)
notify-IsQuiet task page at (d ∷ ds) =
    calls _ _ tt (λ u. calls _ _ tt (λ sender. with_sender-IsQuiet (d ∷ ds) _ sender))

unfoldable pub addressed : Notification → List Device → List (Device × Notification)
addressed n [] = []
addressed n (d ∷ ds) = (d, n) ∷ addressed n ds

prune-IsSilent : (o : SendResult) (d : Device) → Calls IsSilent (prune o d)
unfolding prune
prune-IsSilent sent d = stops _
prune-IsSilent failed d = stops _
prune-IsSilent token_gone d =
    calls _ _ tt (λ can. Calls-if can (calls _ _ tt (λ r. stops _)) (stops _))

run-send :
    {A : Type 0} (env : Env) (d : Device) (n : Notification) (k : SendResult → Prog A) (w : World)
    → (run env (call (send d n) k) w).1.pushes
      ≡ (run env (k (env.push_result w.calls)) (answer env (send d n) w).1).1.pushes
unfolding run answer
run-send env d n k w = refl

-- Every device is sent the notification once, in order, whether or not the earlier ones failed.
pub push_to-pushes :
    (env : Env) (ds : List Device) (n : Notification) (w : World)
    → (run env (push_to ds n) w).1.pushes ≡ w.pushes ++ addressed n ds
unfolding push_to addressed answer
push_to-pushes env [] n w = unfold run in sym (append-nil w.pushes)
push_to-pushes env (d ∷ ds) n w =
    let o = env.push_result w.calls in
    let w1 = (answer env (send d n) w).1 in
    let w2 = (run env (prune o d) w1).1 in
    (run-send env d n _ w)
    ∙ ap (λ (x : ⊤ × World). x.1.pushes) (run-bind env (prune o d) (λ _. push_to ds n) w1)
    ∙ push_to-pushes env ds n w2
    ∙ ap (λ l. l ++ addressed n ds) (run-pushes env (prune-IsSilent o d) w1)
    ∙ append_assoc w.pushes ((d, n) ∷ []) (addressed n ds)

-- The client for FCM has been loaded, or will be when it is first asked for.
pub record HasSender (env : Env) (w : World) : Type 0 where
  pub loads : (n : ℕ) → env.sender_loads n ≡ true
  pub not_broken : w.sender ≢ broken

sender_cell-ok : (cell : SenderCell) → cell ≢ broken → (sender_cell true cell).0 ≡ ok tt
unfolding sender_cell
sender_cell-ok unset h = refl
sender_cell-ok ready h = refl
sender_cell-ok broken h = absurd (h refl)

run-get_sender :
    {A : Type 0} (env : Env) (k : Result ⊤ → Prog A) (w : World)
    → HasSender env w
    → run env (call get_sender k) w ≡ run env (k (ok tt)) (answer env get_sender w).1
unfolding run answer
run-get_sender env k w h = rw (h.loads w.calls, sender_cell-ok w.sender h.not_broken)

-- What every device of the recipient is sent.
unfoldable pub notification : PageTask → Page → World → Notification
notification task page w = record {
  page_id = page.id;
  attempt = task.attempt;
  sender_name = sender_name page (get_user page.sender_id w.store).0;
}

with_sender-run :
    (env : Env) (ds : List Device) (n : Notification) (w : World)
    → ((run env (with_sender ds n (ok tt)) w).0 ≡ ok tt)
      × ((run env (with_sender ds n (ok tt)) w).1.pushes ≡ w.pushes ++ addressed n ds)
with_sender-run env ds n w =
    (rw run-bind (unfold run in refl), rw run-bind (unfold run in push_to-pushes env ds n w))

-- With a device the calls before the pushes come down to the notification's text.
notify-sends :
    (env : Env) (task : PageTask) (page : Page) (at : Time) (d : Device) (ds : List Device)
    (w : World)
    → HasStore env
    → HasSender env w
    → (w' : World) × (w'.pushes ≡ w.pushes)
      × (run env (notify task page at (d ∷ ds)) w
          ≡ run env (with_sender (d ∷ ds) (notification task page w) (ok tt)) w')
unfolding notify notification stored answer exec
notify-sends env task page at d ds w s h =
    let w1 = stored env (Store.get_user page.sender_id) w in
    (
      (answer env get_sender w1).1,
      refl,
      run-ask env (Store.get_user page.sender_id) _ w (s.store_up w.calls)
          ∙ run-get_sender env _ w1 (record { loads = h.loads; not_broken = h.not_broken }),
    )

-- Step 5 succeeds, and each of the recipient's devices is sent the notification once.
pub notify-run :
    (env : Env) (task : PageTask) (page : Page) (at : Time) (ds : List Device) (w : World)
    → HasStore env
    → HasSender env w
    → ((run env (notify task page at ds) w).0 ≡ ok tt)
      × ((run env (notify task page at ds) w).1.pushes
          ≡ w.pushes ++ addressed (notification task page w) ds)
unfolding notify addressed
notify-run env task page at [] w s h = (
  rw (run-ask env _ _ w (s.store_up w.calls)) (unfold run in refl),
  rw (run-ask env _ _ w (s.store_up w.calls)) (unfold run stored in sym (append-nil w.pushes)),
)
notify-run env task page at (d ∷ ds) w s h =
    let (w', same, e) = notify-sends env task page at d ds w s h in
    let (done, sends) = with_sender-run env (d ∷ ds) (notification task page w) w' in
    (rw e done, rw e (sends ∙ ap (λ l. l ++ addressed (notification task page w) (d ∷ ds)) same))
