-- ===== src/Store/Contract.antt =====
-- What backend/internal/store/store.go asks of the callers of the store, and what a store does to
-- the pages under it: the lifecycle of model.go.
use alertme.Prelude.{⊤, true, false, ◌≡◌, ◌≢◌, none, List, refl}
use alertme.Model.{PageState, Page, created, acked, is_active}
use alertme.Model.Lifecycle.{Forward, Forward-refl, Forward-trans}
use alertme.Store.{StoreCmd, create_page, set_page_state}
use alertme.Store.Fake.{allowed}

-- `SetPageState` leaves only active states, to a state further on that is not acked. (From `acked`
-- no call leaves, and only `AckPage` leads there.)
pub record IsTransition (from : List PageState) (to : PageState) : Type 0 where
  pub leaves : (st : PageState) → allowed st from ≡ true → Forward st to × (is_active st ≡ true)
  pub not_ack : to ≢ acked

pub record IsFresh (p : Page) : Type 0 where
  pub is_created : p.state ≡ created
  pub not_acked : p.acked_at ≡ none

abbrev pub Obeys : StoreCmd → Type 0
Obeys (set_page_state id from to attempt) = IsTransition from to
Obeys (create_page p) = IsFresh p
Obeys _ = ⊤

-- What may become of a page.
pub record Evolves (p q : Page) : Type 0 where
  pub same_id : q.id ≡ p.id
  pub same_sender : q.sender_id ≡ p.sender_id
  pub same_recipient : q.recipient_id ≡ p.recipient_id
  pub same_message : q.message ≡ p.message
  pub same_key : q.idempotency_key ≡ p.idempotency_key
  pub same_created : q.created_at ≡ p.created_at
  pub same_expiry : q.expires_at ≡ p.expires_at
  pub forward : Forward p.state q.state
  pub final : is_active p.state ≡ false → q ≡ p

pub Evolves-refl : (p : Page) → Evolves p p
Evolves-refl p = record {
  same_id = refl;
  same_sender = refl;
  same_recipient = refl;
  same_message = refl;
  same_key = refl;
  same_created = refl;
  same_expiry = refl;
  forward = Forward-refl p.state;
  final = λ h. refl;
}

pub Evolves-trans : (p q r : Page) → Evolves p q → Evolves q r → Evolves p r
Evolves-trans p q r a b = record {
  same_id = cc (a.same_id, b.same_id);
  same_sender = cc (a.same_sender, b.same_sender);
  same_recipient = cc (a.same_recipient, b.same_recipient);
  same_message = cc (a.same_message, b.same_message);
  same_key = cc (a.same_key, b.same_key);
  same_created = cc (a.same_created, b.same_created);
  same_expiry = cc (a.same_expiry, b.same_expiry);
  forward = Forward-trans p.state q.state r.state a.forward b.forward;
  final = λ h. let e = a.final h in cc (e, b.final (rw e h));
}
