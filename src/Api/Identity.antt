-- ===== src/Api/Identity.antt =====
-- backend/internal/api/identity.go, and the display name that handlers.go derives from an identity.
use Prim.Native.Char.{code}
use mathlib.Core.Option
use alertme.Prelude.{ℕ, String, Option, none, some, ◌==◌, str_eq, if◌then◌else◌, Map, lookup}

pub record Identity : Type 0 where
  pub user_id : String
  pub email : String

-- `claims[key]`, which is empty where the key is missing.
unfoldable pub claim : String → Map String → String
claim key claims = elim (lookup key claims) [ none ↦ "" | some v ↦ v ]

abbrev from_claims : Option (Map String) → Option Identity
from_claims none = none
from_claims (some claims) =
    if str_eq (claim "sub" claims) ""
    then none
    else some (record { user_id = claim "sub" claims; email = claim "email" claims })

abbrev or_dev : Option Identity → String → String → Option Identity
or_dev (some id) dev_user dev_email = some id
or_dev none dev_user dev_email =
    if str_eq dev_user "" then none else some (record { user_id = dev_user; email = dev_email })

-- `withIdentity`: the claims of the gateway's JWT authorizer, if the request has passed one, and
-- the variables DEV_USER_ID and DEV_USER_EMAIL. `none` is the 401.
unfoldable pub with_identity : Option (Map String) → String → String → Option Identity
unfolding claim
with_identity jwt dev_user dev_email = or_dev (from_claims jwt) dev_user dev_email

-- `email[:at]` for `at` the place of the first character `c`, if there is one.
unfoldable pub before : ℕ → String → Option String
before c String.[] = none
before c (String.◌∷◌ d s) =
    let rest = Option.map (λ name. String.◌∷◌ d name) (before c s) in
    if code d == c then some "" else rest

abbrev local_part : String → Option String → String
local_part email none = email
local_part email (some name) = if str_eq name "" then email else name

unfoldable pub display_name_for : Identity → String
unfolding before
display_name_for id =
    if str_eq id.email "" then id.user_id else local_part id.email (before b'@' id.email)
