-- ===== src/Tests/Clients.antt =====
-- Examples of the canary and of the FCM client.
use alertme.Api.Ids.{Random, IsRandom, IsCode, random_invite_code, random_invite_code-IsCode}
use alertme.Prelude.{ℕ, ◌%◌, refl, true, ◌≢◌, ◌+◌, none, some, [], ◌∷◌, arith, if◌then◌else◌, ◌==◌}
use alertme.Int.{pos}
use alertme.Canary.{Outside, run, bad, no_fuel}
use alertme.Canary.Bounds.{IsClocked, run-ends}
use alertme.Canary.Log
use alertme.Push.{Notification}
use alertme.Push.Fcm.{Http, answered, send}
use alertme.Push.Fcm.Retry
use alertme.Push.Fcm.Retry.{Story, send-Story}
use alertme.Tests.{device}

-- A world whose state is its clock, and in which every page is pushed.
abbrev outside : Outside
outside = record {
  State = ℕ;
  getenv = λ name. "x";
  aws_config_ok = λ s. (true, s);
  initiate_auth = λ c u p s. (some (some u), s);
  now = λ s. s;
  unix_nano = λ t. "1";
  marshal = λ m. some "{}";
  decode = λ body v. some (record { id = "p1"; state = body });
  do_request = λ r s. (some (record { status = 200; body = "pushed" }), s + 1000);
  wait = λ d s. (true, s + d);
}

outside-IsClocked : IsClocked outside
outside-IsClocked = record { forward = λ r s. omega arith; waits = λ d s fires. omega arith }

run-ends_example : (run outside 0).0 ≢ bad no_fuel
run-ends_example = run-ends outside outside-IsClocked 0

-- A server that is busy at first.
abbrev busy_once : Http
busy_once = record {
  State = ℕ;
  itoa = λ n. "0";
  marshal = λ m. some "{}";
  unmarshal_error = λ body. none;
  takes_url = λ url. true;
  do_request = λ r s. (answered (if s == 0 then 503 else 200) "", s + 1);
  intn = λ n s. (0, s);
  wait = λ d s. (true, s);
}

abbrev notification : Notification
notification = record { page_id = "p1"; attempt = pos 0; sender_name = "Alice" }

send-Story_example :
    Story busy_once "project" device notification
      (send (Retry.logged busy_once) "project" device notification (0, [])).0
      (send (Retry.logged busy_once) "project" device notification (0, [])).1.1
send-Story_example = send-Story busy_once "project" device notification 0

-- A source that counts.
abbrev counter : Random
counter = record {
  State = ℕ;
  int_below = λ bound s. (some (s % 7 % bound), s + 1);
  read = λ n s. (some (s ∷ []), s + 1);
}

counter-IsRandom : IsRandom counter
counter-IsRandom = record { draws = λ bound s h. (s % 7 % bound, (refl, ground arith)) }

random_invite_code-IsCode_example : IsCode 10 (random_invite_code counter 10 0).0
random_invite_code-IsCode_example = random_invite_code-IsCode counter counter-IsRandom 10 0
