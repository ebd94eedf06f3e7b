-- ===== src/Rpc/Sockets.antt =====
-- internal/rpc/ws.go: the address of a websocket, and the events that are read from it.
use cometduty.Prelude.{Bool, List, [], ◌∷◌, String, Option, none, some, ◌&&◌, ◌||◌}
use cometduty.Prelude.{◌==◌, string_eq, if◌then◌else◌}
use cometduty.Prelude.Fields.{trim_right_of, has_suffix}
use cometduty.Prelude.Text.{sprintf}
use cometduty.Prelude.Tried.{Tried, failed, done, ◌>>=◌, wrapped}
use Prim.Native.String.{◌++◌ as ◌<>◌}

-- A URL as `url.Parse` takes it apart.
pub record WsUrl : Type 0 where
  pub scheme : String
  pub host : String
  pub path : String

-- What is dialled: the endpoint, the socket's path where it is one, and whether TLS is not verified.
pub record Dialled : Type 0 where
  pub endpoint : WsUrl
  pub unix_socket : String
  pub skip_verify : Bool

-- The path of the handler, added where it is missing.
unfoldable pub with_websocket : String → String
with_websocket raw_url =
    let u = trim_right_of b'/' raw_url in if has_suffix u "/websocket" then u else u <> "/websocket"

dialled_to : Bool → WsUrl → String → String → Dialled
dialled_to insecure u scheme socket = record {
  endpoint = record u { scheme = scheme; host = if socket == "" then u.host else "unix" };
  unix_socket = socket;
  skip_verify = insecure && scheme == "wss";
}

-- The switch on the scheme. A socket without a path is dialled as its host.
unfoldable pub dial_scheme : Bool → WsUrl → Tried Dialled
unfolding dialled_to
dial_scheme insecure u =
    if u.scheme == "http" || (u.scheme == "tcp" || u.scheme == "ws")
    then done (dialled_to insecure u "ws" "")
    else if u.scheme == "https" || u.scheme == "wss"
    then done (dialled_to insecure u "wss" "")
    else if u.scheme == "unix"
    then done (record (dialled_to insecure u "ws" (if u.path == "" then u.host else u.path)) {
      endpoint = record u { scheme = "ws"; host = "unix" };
    })
    else failed (
        sprintf "protocol %s is unknown, valid choices are http, https, tcp, unix, ws, wss"
          (u.scheme ∷ []))

-- `DialWS` up to the connection; `url.Parse` is a parameter.
unfoldable pub dial_ws : (String → Tried WsUrl) → Bool → String → Tried Dialled
dial_ws parse_url insecure raw_url = do
  let u = with_websocket raw_url
  endpoint ← wrapped (λ e. sprintf "parsing ws url \"%s\": %s" (u ∷ e ∷ [])) (parse_url u)
  dial_scheme insecure endpoint

-- A message of the socket: the read fails, it is no JSON, it carries no event's type, or an event.
pub data Frame {ℓ} (E : Type ℓ) : Type ℓ where
  broken : String → Frame E
  unreadable acknowledged : Frame E
  event : E → Frame E

-- What `ReadEvent` returns: an error, nothing and no error, or an event.
pub data Read {ℓ} (E : Type ℓ) : Type ℓ where
  read_error : String → Read E
  nil : Read E
  got : E → Read E

-- `ReadEvent`, with the messages that are left; none while it waits.
unfoldable pub read_event {ℓ} : {E : Type ℓ} → List (Frame E) → Option (Read E × List (Frame E))
read_event [] = none
read_event (broken e ∷ fs) = some (read_error e, fs)
read_event (unreadable ∷ fs) = some (nil, fs)
read_event (acknowledged ∷ fs) = read_event fs
read_event (event x ∷ fs) = some (got x, fs)
