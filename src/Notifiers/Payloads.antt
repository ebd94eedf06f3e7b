-- ===== src/Notifiers/Payloads.antt =====
-- internal/alert/notifiers: what the six notifiers without a state post for an alert. The encoding as
-- JSON, the escape of a path, the format of a time, a template's run and the HMAC are parameters.
pub mod Incidents
use cometduty.Prelude.{
  ℕ, ◌/◌, Bool, true, false, List, [], ◌∷◌, String, Option, none, some, not, ◌||◌, eqb,
}
use cometduty.Prelude.{◌==◌, string_eq, if◌then◌else◌}
use cometduty.Prelude.Fields.{joined, trim_space, trim_right_of}
use cometduty.Prelude.Int.{ℤ, sub_ℕ, pos}
use cometduty.Prelude.Maps.{GoMap, insert}
use cometduty.Prelude.Text.{sprintf, show, show_ℤ}
use cometduty.Prelude.Time.{second}
use cometduty.Alert.{Alert, DestConfig}
use cometduty.Config.{
  PagerdutyConfig, DiscordConfig, SlackConfig, WebhookConfig, NtfyConfig, OpsgenieConfig,
}
use Prim.Native.String.{◌++◌ as ◌<>◌}

pub record PdPayload : Type 0 where
  pub summary : String
  pub source : String
  pub severity : String

-- The payload of a resolve is empty.
pub record PdEvent : Type 0 where
  pub routing_key : String
  pub event_action : String
  pub dedup_key : String
  pub payload : Option PdPayload

pub record OpsgenieAlert : Type 0 where
  pub message : String
  pub alias : String
  pub description : String
  pub source : String
  pub priority : String
  pub tags : List String
  pub responder : Option String

pub record DiscordPayload : Type 0 where
  pub username : String
  pub content : String
  pub title : String
  pub description : String
  pub color : ℕ

pub record SlackPayload : Type 0 where
  pub text : String
  pub color : String
  pub title : String
  pub attachment : String
  pub ts : ℤ

-- `Payload`, the default body of a webhook.
pub record WebhookPayload : Type 0 where
  pub version : String
  pub source : String
  pub status : String
  pub alert : Alert
  pub time : String

pub data Body : Type 0 where
  pd_event : PdEvent → Body
  opsgenie_alert : OpsgenieAlert → Body
  opsgenie_close : String → Body
  discord_payload : DiscordPayload → Body
  slack_payload : SlackPayload → Body
  raw : String → Body

pub record Post : Type 0 where
  pub url : String
  pub content_type : String
  pub headers : GoMap String String
  pub body : Body

-- An error before anything is sent, or the request.
pub data Prepared : Type 0 where
  refused : String → Prepared
  posts : Post → Prepared

abbrev post_json : String → GoMap String String → Body → Prepared
post_json url headers body =
    posts (record { url = url; content_type = "application/json"; headers = headers; body = body })

-- The id under which a raise and its resolve meet.
abbrev pub incident_id : Alert → String
incident_id a = a.chain <> ("|" <> a.key)

abbrev first_of : String → String → String → String
first_of a b c = if not (a == "") then a else if not (b == "") then b else c

-- `PagerDuty.Send`.
unfoldable pub send_pagerduty : PagerdutyConfig → Alert → Prepared
send_pagerduty c a =
    if c.api_key == ""
    then refused "pagerduty api_key not configured"
    else post_json "https://events.pagerduty.com/v2/enqueue" [] (
        pd_event (record {
          routing_key = c.api_key;
          event_action = if a.resolved then "resolve" else "trigger";
          dedup_key = incident_id a;
          payload =
              if a.resolved
              then none
              else some (record {
                summary = a.message;
                source = a.chain;
                severity = first_of a.severity c.default_severity "error";
              });
        }))

unfoldable pub opsgenie_priority : String → String
opsgenie_priority sev =
    if sev == "critical" || sev == "error" then "P1" else if sev == "warning" then "P3" else "P4"

-- `Opsgenie.Send`.
unfoldable pub send_opsgenie : (String → String) → OpsgenieConfig → Alert → Prepared
unfolding opsgenie_priority
send_opsgenie path_escape c a =
    let base = if c.api_url == "" then "https://api.opsgenie.com" else c.api_url in
    let headers = ("Authorization", "GenieKey " <> c.api_key) ∷ [] in
    if c.api_key == ""
    then refused "opsgenie api_key not configured"
    else if a.resolved
    then post_json
        (sprintf "%s/v2/alerts/%s/close?identifierType=alias"
          (base ∷ path_escape (incident_id a) ∷ []))
        headers (opsgenie_close "cometduty")
    else post_json (base <> "/v2/alerts") headers (
        opsgenie_alert (record {
          message = sprintf "%s: %s" (a.chain ∷ a.message ∷ []);
          alias = incident_id a;
          description = a.message;
          source = "cometduty";
          priority = opsgenie_priority a.severity;
          tags = "cometduty" ∷ a.chain_id ∷ [];
          responder = if c.team == "" then none else some c.team;
        }))

-- `Discord.Send`.
unfoldable pub send_discord : DiscordConfig → Alert → Prepared
send_discord c a =
    let prefix : String = if a.resolved then "💜 RESOLVED" else "🚨 ALERT" in
    if c.webhook == ""
    then refused "discord webhook not configured"
    else post_json c.webhook [] (
        discord_payload (record {
          username = "cometduty";
          content = trim_space (sprintf "%s %s %s" (prefix ∷ a.chain ∷ joined " " c.mentions ∷ []));
          title = sprintf "%s · %s" (a.chain_id ∷ a.severity ∷ []);
          description = a.message;
          color = if a.resolved then 0x845ef7 else 0xd9480f;
        }))

-- `Time.Unix`; Go's zero time is that many seconds before 1970.
abbrev unix : ℕ → ℤ
unix t = sub_ℕ (t / second) 62_135_596_800

-- `Slack.Send`.
unfoldable pub send_slack : SlackConfig → Alert → Prepared
send_slack c a =
    let title : String = if a.resolved then "💜 resolved" else "🚨 cometduty alert" in
    if c.webhook == ""
    then refused "slack webhook not configured"
    else post_json c.webhook [] (
        slack_payload (record {
          text =
              trim_space (
                sprintf "%s %s — %s %s" (title ∷ a.chain ∷ a.message ∷ joined " " c.mentions ∷ []));
          color = if a.resolved then "good" else "danger";
          title = sprintf "%s · %s · %s" (a.chain ∷ a.chain_id ∷ a.severity ∷ []);
          attachment = a.message;
          ts = unix a.time;
        }))

abbrev ntfy_priority : NtfyConfig → Bool → String
ntfy_priority c resolved =
    let prio = if c.priority == "" then "default" else c.priority in
    if resolved then if prio == "urgent" then prio else "low" else prio

-- `Ntfy.Send`.
unfoldable pub send_ntfy : NtfyConfig → Alert → Prepared
send_ntfy c a =
    let title =
      if a.resolved
      then sprintf "💜 resolved: %s" (a.chain ∷ [])
      else sprintf "🚨 %s: %s" (a.chain ∷ a.severity ∷ []) in
    let headers : GoMap String String =
      ("Title", title)
      ∷ ("Priority", ntfy_priority c a.resolved)
      ∷ ("Tags", "cometduty," <> a.chain_id)
      ∷ [] in
    if c.url == "" || c.topic == ""
    then refused "ntfy url/topic not configured"
    else posts (record {
      url = trim_right_of b'/' c.url <> ("/" <> c.topic);
      content_type = "text/plain; charset=utf-8";
      headers =
          if c.token == "" then headers else insert "Authorization" ("Bearer " <> c.token) headers;
      body = raw a.message;
    })

-- What the webhook's notifier uses of Go: the format of a time, JSON, a template's run with its text or
-- its error, and the HMAC-SHA256 of a text under a secret, in hex.
pub record WebhookEnv : Type 0 where
  pub rfc3339 : ℕ → String
  pub marshal : WebhookPayload → String
  pub execute : String → Alert → Bool × String
  pub hmac_hex : String → String → String

module _ (env : WebhookEnv) where
  -- `NewPayload`.
  unfoldable pub new_payload : Alert → WebhookPayload
  new_payload a = record {
    version = "1";
    source = "cometduty";
    status = if a.resolved then "resolved" else "firing";
    alert = a;
    time = env.rfc3339 a.time;
  }

  -- `RenderBody`: whether it succeeds, and the body or the error.
  unfoldable pub render_body : String → Alert → Bool × String
  render_body tpl a = if tpl == "" then (true, env.marshal (new_payload a)) else env.execute tpl a

  -- `Sign`.
  unfoldable pub sign : String → ℤ → String → String
  sign secret ts body = "sha256=" <> env.hmac_hex secret (show_ℤ ts <> ("." <> body))

  unfoldable pub signed_headers : WebhookConfig → ℤ → String → GoMap String String
  signed_headers c ts body =
      if c.secret == ""
      then c.headers
      else insert "X-Cometduty-Signature" (sign c.secret ts body)
          (insert "X-Cometduty-Timestamp" (show_ℤ ts) c.headers)

  with_body : WebhookConfig → ℤ → Bool × String → Prepared
  with_body c ts (false, e) = refused e
  with_body c ts (true, body) = post_json c.url (signed_headers c ts body) (raw body)

  -- `Webhook.Send`, at a Unix time.
  unfoldable pub send_webhook : ℤ → WebhookConfig → Alert → Prepared
  unfolding with_body
  send_webhook ts c a =
      if c.url == ""
      then refused "webhook url not configured"
      else with_body c ts (render_body c.template_body a)

-- What came back: no request could be made, no answer, or a status with a body.
pub data HttpReply : Type 0 where
  no_request no_answer : String → HttpReply
  replied : ℕ → String → HttpReply

-- `post`: only a status of the 200s is a success. Of the body at most 512 bytes are read.
unfoldable pub post_error : String → HttpReply → Option String
post_error url (no_request e) = some e
post_error url (no_answer e) = some e
post_error url (replied status body) =
    if eqb (status / 100) 2
    then none
    else some (sprintf "POST %s: http %d: %s" (url ∷ show status ∷ body ∷ []))
