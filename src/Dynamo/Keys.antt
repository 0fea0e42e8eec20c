-- ===== src/Dynamo/Keys.antt =====
-- backend/internal/store/dynamo/keys.go: the keys of the single table. The layouts of package `time`
-- are a parameter.
use Prim.Native.String.{◌++◌}
use alertme.Prelude.{String, Option}
use alertme.Model.{Time}

-- `t.UTC().Format(time.RFC3339)`, the same with RFC3339Nano, and `time.Parse` with the latter, whose
-- error is `none`.
pub record TimeFormat : Type 0 where
  pub rfc3339 : Time → String
  pub rfc3339_nano : Time → String
  pub parse_nano : String → Option Time

unfoldable pub user_pk : String → String
user_pk id = "USER#" ++ id

unfoldable pub device_sk : String → String
device_sk token = "DEVICE#" ++ token

unfoldable pub pair_sk : String → String
pair_sk peer_id = "PAIR#" ++ peer_id

unfoldable pub invite_pk : String → String
invite_pk code = "INVITE#" ++ code

unfoldable pub page_pk : String → String
page_pk id = "PAGE#" ++ id

unfoldable pub idem_pk : String → String
idem_pk key = "IDEM#" ++ key

unfoldable pub event_sk : TimeFormat → Time → String → String
event_sk tf at kind = "EVT#" ++ (tf.rfc3339_nano at ++ ("#" ++ kind))

unfoldable pub page_gsi1_sk : TimeFormat → Time → String → String
page_gsi1_sk tf created id = "PAGE#" ++ (tf.rfc3339 created ++ ("#" ++ id))

unfoldable pub page_gsi2_sk : TimeFormat → Time → String → String
unfolding page_gsi1_sk
page_gsi2_sk tf created id = page_gsi1_sk tf created id

abbrev pub sk_profile : String
sk_profile = "PROFILE"

abbrev pub sk_meta : String
sk_meta = "META"
