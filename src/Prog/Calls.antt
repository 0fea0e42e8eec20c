-- ===== src/Prog/Calls.antt =====
-- A predicate on every call that a program can make, whatever it is answered.
use alertme.Prelude.{⊤, Bool, true, false, if◌then◌else◌}
use alertme.Store.Contract.{Obeys}
use alertme.Prog.{Call, Answer, Prog, ret, call, on_store, ◌>>=◌}

pub data Calls (P : Call → Type 0) {A : Type 0} : Prog A → Type 0 where
  stops : (a : A) → Calls P (ret a)
  calls :
      (c : Call) (k : Answer c → Prog A)
      → P c
      → ((r : Answer c) → Calls P (k r))
      → Calls P (call c k)

module _ {P : Call → Type 0} {A B : Type 0} where
  pub Calls-bind :
      {m : Prog A} (f : A → Prog B) → Calls P m → ((a : A) → Calls P (f a)) → Calls P (m >>= f)
  unfolding ◌>>=◌
  Calls-bind f (stops a) h = h a
  Calls-bind f (calls c k p t) h = calls c (λ r. k r >>= f) p (λ r. Calls-bind f (t r) h)

module _ {P : Call → Type 0} {A : Type 0} where
  pub Calls-if : (b : Bool) {m n : Prog A} → Calls P m → Calls P n → Calls P (if b then m else n)
  Calls-if true h k = h
  Calls-if false h k = k

pub ruleset calls_rules = (stops, calls, Calls-bind, Calls-if)

-- The calls of a program that keeps the contract of the store.
abbrev pub ObeysCall : Call → Type 0
ObeysCall (on_store c) = Obeys c
ObeysCall _ = ⊤
