-- ===== src/Api/Response.antt =====
-- The responses of backend/internal/api/handlers.go, and its convention for store errors.
use alertme.Prelude.{ℕ, String, List}
use alertme.Model.{Time, Pairing, Page, PageEvent}
use alertme.Store.{Err, not_found, conflict, other}

-- What is handed to the JSON encoder, or the text of `http.Error`.
pub data Body : Type 0 where
  empty : Body
  text : String → Body
  health : String → Body
  invite : String → Time → Body
  pairing : Pairing → Body
  pairings : List Pairing → Body
  page : Page → Body
  pages : List Page → Body
  timeline : Page → List PageEvent → Body

pub record Response : Type 0 where
  pub status : ℕ
  pub body : Body

abbrev pub respond : ℕ → Body → Response
respond status body = record { status = status; body = body }

abbrev pub unauthorized : Response
unauthorized = respond 401 (text "unauthorized")

-- `mapStoreErr`
unfoldable pub map_store_err : Err → Response
map_store_err not_found = respond 404 (text "not found")
map_store_err conflict = respond 409 (text "conflict")
map_store_err other = respond 500 (text "internal error")
