-- ===== src/Dynamo/Entities.antt =====
-- The items of the table, and that no two of them share a key.
use Prim.Native.Char.{Char, code}
use Prim.Native.String.{◌++◌}
use text.Mathlib.TextLemmas.{append_cancel_left, cons-append}
use alertme.Prelude.{ℕ, String, ◌≡◌, ◌≢◌, refl, sym, ◌∙◌, ap, arith}
use alertme.Model.{Time}
use alertme.Dynamo.Keys.{
  TimeFormat, user_pk, device_sk, pair_sk, invite_pk, page_pk, idem_pk, event_sk, sk_profile,
  sk_meta,
}

-- What has an item of its own, but for the events of a page.
pub data Entity : Type 0 where
  user : String → Entity
  device : String → String → Entity
  pairing : String → String → Entity
  invite : String → Entity
  page : String → Entity
  guard : String → Entity

abbrev pub pk : Entity → String
pk (user id) = user_pk id
pk (device user_id token) = user_pk user_id
pk (pairing user_id peer_id) = user_pk user_id
pk (invite code) = invite_pk code
pk (page id) = page_pk id
pk (guard key) = idem_pk key

abbrev pub sk : Entity → String
sk (user id) = sk_profile
sk (device user_id token) = device_sk token
sk (pairing user_id peer_id) = pair_sk peer_id
sk (invite code) = sk_meta
sk (page id) = sk_meta
sk (guard key) = sk_meta

-- The second letter of a text tells the kinds of keys apart.
second : String → ℕ
second (String.◌∷◌ c (String.◌∷◌ d s)) = code d
second s = 0

second-append : (c d : Char) (s t : String) → second (String.◌∷◌ c (String.◌∷◌ d s) ++ t) ≡ code d
unfolding second
second-append c d s t = rw (cons-append, cons-append) refl

second-user_pk : (s : String) → second (user_pk s) ≡ b'S'
unfolding user_pk
second-user_pk s = second-append "U" "S" "ER#" s

second-invite_pk : (s : String) → second (invite_pk s) ≡ b'N'
unfolding invite_pk
second-invite_pk s = second-append "I" "N" "VITE#" s

second-page_pk : (s : String) → second (page_pk s) ≡ b'A'
unfolding page_pk
second-page_pk s = second-append "P" "A" "GE#" s

second-idem_pk : (s : String) → second (idem_pk s) ≡ b'D'
unfolding idem_pk
second-idem_pk s = second-append "I" "D" "EM#" s

second-device_sk : (s : String) → second (device_sk s) ≡ b'E'
unfolding device_sk
second-device_sk s = second-append "D" "E" "VICE#" s

second-pair_sk : (s : String) → second (pair_sk s) ≡ b'A'
unfolding pair_sk
second-pair_sk s = second-append "P" "A" "IR#" s

second-event_sk :
    (tf : TimeFormat) (at : Time) (kind : String) → second (event_sk tf at kind) ≡ b'V'
unfolding event_sk
second-event_sk tf at kind = second-append "E" "V" "T#" (tf.rfc3339_nano at ++ ("#" ++ kind))

second-sk_profile : second sk_profile ≡ b'R'
unfolding second
second-sk_profile = refl

second-sk_meta : second sk_meta ≡ b'E'
unfolding second
second-sk_meta = refl

-- The letters of an entity's two keys.
abbrev kind_of : Entity → ℕ × ℕ
kind_of (user id) = (b'S', b'R')
kind_of (device u t) = (b'S', b'E')
kind_of (pairing u p) = (b'S', b'A')
kind_of (invite c) = (b'N', b'E')
kind_of (page id) = (b'A', b'E')
kind_of (guard k) = (b'D', b'E')

second-pk : (e : Entity) → second (pk e) ≡ (kind_of e).0
second-pk (user id) = second-user_pk id
second-pk (device u t) = second-user_pk u
second-pk (pairing u p) = second-user_pk u
second-pk (invite c) = second-invite_pk c
second-pk (page id) = second-page_pk id
second-pk (guard k) = second-idem_pk k

second-sk : (e : Entity) → second (sk e) ≡ (kind_of e).1
second-sk (user id) = second-sk_profile
second-sk (device u t) = second-device_sk t
second-sk (pairing u p) = second-pair_sk p
second-sk (invite c) = second-sk_meta
second-sk (page id) = second-sk_meta
second-sk (guard k) = second-sk_meta

same_kind :
    (d e : Entity)
    → pk d ≡ pk e
    → sk d ≡ sk e
    → ((kind_of d).0 ≡ (kind_of e).0) × ((kind_of d).1 ≡ (kind_of e).1)
same_kind d e h k =
    (sym (second-pk d) ∙ ap second h ∙ second-pk e, sym (second-sk d) ∙ ap second k ∙ second-sk e)

-- Two entities with the same partition key and the same sort key are the same: users, devices,
-- pairings, invites, pages and idempotency guards never overwrite one another, whatever identifiers,
-- tokens, codes and keys clients choose.
pub key_inj : (d e : Entity) → pk d ≡ pk e → sk d ≡ sk e → d ≡ e
unfolding user_pk device_sk pair_sk invite_pk page_pk idem_pk
key_inj (user a) (user b) h k = ap user (append_cancel_left "USER#" a b h)
key_inj (device a s) (device b t) h k =
    let e = append_cancel_left "USER#" a b h in
    let f = append_cancel_left "DEVICE#" s t k in rw (e, f) refl
key_inj (pairing a s) (pairing b t) h k =
    let e = append_cancel_left "USER#" a b h in
    let f = append_cancel_left "PAIR#" s t k in rw (e, f) refl
key_inj (invite a) (invite b) h k = ap invite (append_cancel_left "INVITE#" a b h)
key_inj (page a) (page b) h k = ap page (append_cancel_left "PAGE#" a b h)
key_inj (guard a) (guard b) h k = ap guard (append_cancel_left "IDEM#" a b h)
key_inj d e h k = ground (arith, same_kind d e h k)

-- The item of an event is none of them.
pub event_sk-ne-sk :
    (tf : TimeFormat) (at : Time) (kind id : String) (e : Entity)
    → page_pk id ≡ pk e
    → event_sk tf at kind ≢ sk e
event_sk-ne-sk tf at kind id e h k =
    let a = sym (second-page_pk id) ∙ ap second h ∙ second-pk e in
    let b = sym (second-event_sk tf at kind) ∙ ap second k ∙ second-sk e in apart e a b
  where
    apart : (e : Entity) → ◌≡◌ {A = ℕ} b'A' (kind_of e).0 → ◌≡◌ {A = ℕ} b'V' (kind_of e).1 → ⊥
    apart (user id) a b = ground arith
    apart (device u t) a b = ground arith
    apart (pairing u p) a b = ground arith
    apart (invite c) a b = ground arith
    apart (page i) a b = ground arith
    apart (guard key) a b = ground arith

pub user_pk-ne-invite_pk : (id code : String) → user_pk id ≢ invite_pk code
user_pk-ne-invite_pk id code h =
    apart (sym (second-user_pk id) ∙ ap second h ∙ second-invite_pk code)
  where
    apart : ◌≢◌ {A = ℕ} b'S' b'N'
    apart e = ground arith

pub user_pk_inj : (a b : String) → user_pk a ≡ user_pk b → a ≡ b
unfolding user_pk
user_pk_inj a b h = append_cancel_left "USER#" a b h
