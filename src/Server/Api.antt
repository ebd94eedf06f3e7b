-- ===== src/Server/Api.antt =====
-- internal/api/api.go: the silence API, which speaks Alertmanager's. The router of net/http, the
-- decoding of a body and what `crypto/rand` gives for an id are data.
pub mod Kept
pub mod Purged
pub mod Shown
use cometduty.Prelude.{ℕ, Bool, true, false, List, [], ◌∷◌, String, Option, none, some, map}
use cometduty.Prelude.{◌==◌, string_eq, if◌then◌else◌, not, ◌&&◌, ltb}
use cometduty.Prelude.Fields.{trim_prefix}
use cometduty.Prelude.Maps.{GoMap}
use cometduty.Prelude.Text.{has_prefix}
use cometduty.Prelude.Tried.{Tried, failed, done}
use cometduty.Alert.Engine.{Engine, Delivery}
use cometduty.Alert.Engine.Silences.{add_silence, expire_silence}
use cometduty.Alert.Silence.{Silence, Regexp, Error, Fallible, err, ok, state}

-- `s` before the first that is not newer.
unfoldable pub placed : Silence → List Silence → List Silence
placed s [] = s ∷ []
placed s (t ∷ ts) =
    let rest = placed s ts in if ltb s.updated_at t.updated_at then t ∷ rest else s ∷ t ∷ ts

-- `(*Engine).Silences`: newest first. Where times are equal, Go leaves the order open.
unfoldable pub newest_first : GoMap String Silence → List Silence
newest_first [] = []
newest_first ((id, s) ∷ m) = placed s (newest_first m)

-- The four routes, with what stands in the body or the path.
pub data ApiCall : Type 0 where
  post_silence : Tried Silence → ApiCall
  list_silences : ApiCall
  get_silence : String → ApiCall
  delete_silence : String → ApiCall

pub record ApiRequest : Type 0 where
  pub authorization : String
  pub call : ApiCall

-- `gettable`.
pub record Gettable : Type 0 where
  pub silence : Silence
  pub status : String

-- The responses: what the router gives without the API, 401, 400 for a body and for a silence, 404,
-- and the three that succeed with a body.
pub data ApiResponse : Type 0 where
  not_served unauthorized deleted : ApiResponse
  bad_body : String → ApiResponse
  bad_silence : Error → ApiResponse
  not_found : String → ApiResponse
  created : String → ApiResponse
  listed : List Gettable → ApiResponse
  shown : Gettable → ApiResponse

unfoldable pub view : ℕ → Silence → Gettable
view now s = record { silence = s; status = state s now }

unfoldable pub find : String → List Silence → Option Silence
find id [] = none
find id (s ∷ ss) = let rest = find id ss in if s.id == id then some s else rest

abbrev get_response : ℕ → String → Option Silence → ApiResponse
get_response now id none = not_found id
get_response now id (some s) = shown (view now s)

abbrev added : Engine → Fallible (Engine × String) → Engine × ApiResponse × List Delivery
added e (err x) = (e, bad_silence x, [])
added e (ok (e', id)) = (e', created id, [])

abbrev expired :
    Engine → String → Fallible (Engine × List Delivery) → Engine × ApiResponse × List Delivery
expired e id (err x) = (e, not_found id, [])
expired e id (ok (e', out)) = (e', deleted, out)

-- The four handlers.
unfoldable pub handle :
    Regexp → Engine → ℕ → String → ApiCall → Engine × ApiResponse × List Delivery
handle regexp e now fresh (post_silence (failed x)) = (e, bad_body x, [])
handle regexp e now fresh (post_silence (done s)) = added e (add_silence regexp e now fresh s)
handle regexp e now fresh list_silences = (e, listed (map (view now) (newest_first e.silences)), [])
handle regexp e now fresh (get_silence id) =
    (e, get_response now id (find id (newest_first e.silences)), [])
handle regexp e now fresh (delete_silence id) = expired e id (expire_silence e now id)

-- Whether the header is `Bearer` and the token.
unfoldable pub is_authorized : String → String → Bool
is_authorized token header = has_prefix header "Bearer " && trim_prefix header "Bearer " == token

-- `Register`, and a request of the server.
unfoldable pub serve_api :
    String → Regexp → Engine → ℕ → String → ApiRequest → Engine × ApiResponse × List Delivery
serve_api token regexp e now fresh r =
    if token == ""
    then (e, not_served, [])
    else if is_authorized token r.authorization
    then handle regexp e now fresh r.call
    else (e, unauthorized, [])
