-- ===== src/Monitor/Refresh.antt =====
-- internal/monitor/chain.go: `refreshValInfo`, which asks the chain for the state of the validators.
-- The answers to the queries are data.
pub mod Stakes
pub mod Targets
pub mod Link
use cometduty.Prelude.{ℕ, zero, suc, ◌+◌, ◌*◌, Bool, true, false, List, [], ◌∷◌, ◌++◌, String}
use cometduty.Prelude.{Option, none, some, ◌==◌, string_eq, if◌then◌else◌, not, ◌&&◌, ◌||◌}
use cometduty.Prelude.Ascii.{text_of}
use cometduty.Prelude.Int.{ℤ, pos, ltb_ℤ, leb_ℤ, int_eq}
use cometduty.Prelude.Maps.{GoMap, insert}
use cometduty.Prelude.Text.{sprintf, show_ℤ, contains}
use cometduty.Prelude.Time.{longer, minute}
use cometduty.Alert.{Alert}
use cometduty.Config.{ValidatorConfig}
use cometduty.Consensus.{address_hex}
use cometduty.Monitor.State.{Chain, Target, ValInfo, SetEntry}
use cometduty.Monitor.Alerting.{make_alert}
use cometduty.Monitor.Resolve.{Resolved, resolved, resolve_cons_address}
use cometduty.Monitor.SetWatch.{set_watch}
use Stakes.{stake_delta_pct, stake_less}
use Prim.Native.String.{◌++◌ as ◌<>◌}

-- The answer of `getValidatorRecord`.
pub record Staking : Type 0 where
  pub cons_addr : List ℕ
  pub moniker : String
  pub jailed : Bool
  pub bonded : Bool
  pub tokens : String

-- The answer of `getSigningInfo`: no slashing module, another error, or what it found.
pub data Signing : Type 0 where
  no_module failed : Signing
  signing : Bool → ℤ → ℤ → Signing

-- What the chain answers about one validator; none is an error.
pub record Answers : Type 0 where
  pub staking : Option Staking
  pub slashing : Signing
  pub window : Option ℤ

unfoldable pub direct_staking : Resolved → Option Staking
direct_staking (resolved addr vc) =
    some (record {
      cons_addr = addr;
      moniker = text_of vc;
      jailed = false;
      bonded = true;
      tokens = "";
    })
direct_staking _ = none

-- A consensus address that is given directly needs no query.
unfoldable pub staking_of : ValidatorConfig → Option Staking → Option Staking
unfolding direct_staking
staking_of vc answer =
    if not (vc.valcons_override == "") || contains vc.valoper_address "valcons"
    then direct_staking
        (resolve_cons_address vc.valoper_address vc.valcons_override vc.cons_prefix [])
    else answer

-- The operator's name wins over the chain's.
unfoldable pub labelled : ValidatorConfig → Staking → Staking
labelled vc s = if vc.label == "" then s else record s { moniker = vc.label }

abbrev no_info : ValInfo
no_info = record {
  moniker = "";
  bonded = false;
  jailed = false;
  tombstoned = false;
  tokens = "";
  missed = pos 0;
  window = pos 0;
  jailed_until = pos 0;
  cons_addr = [];
  cons_hex = "";
  valcons = "";
}

unfoldable pub old_info : Option ValInfo → ValInfo
old_info none = no_info
old_info (some i) = i

-- The new state, with what the slashing module said before.
unfoldable pub next_info : ValInfo → Staking → List ℕ → List ℕ → ValInfo
next_info old s addr vc = record old {
  moniker = s.moniker;
  bonded = s.bonded;
  jailed = s.jailed;
  tokens = s.tokens;
  cons_addr = addr;
  cons_hex = text_of (address_hex addr);
  valcons = text_of vc;
}

-- The alert on stake that moved.
unfoldable pub stake_change : Chain → ℕ → Target → ValInfo → ValInfo → List Alert
stake_change c now t old new =
    let pct = c.cfg.alerts.stake_change_pct in
    let moved = stake_delta_pct old.tokens new.tokens in
    let dir = if stake_less new.tokens old.tokens then "decreased" else "increased" in
    if ltb_ℤ (pos 0) pct
      && (not (old.tokens == "")
          && (not (new.tokens == "") && (not (old.tokens == new.tokens) && leb_ℤ pct moved)))
    then make_alert c now (some t) ("stake-change:" <> new.valcons) false "info" (
        sprintf "%s bonded stake %s %d%% (%s -> %s) on %s"
          (new.moniker ∷ dir ∷ show_ℤ moved ∷ old.tokens ∷ new.tokens ∷ c.cfg.chain_id ∷ []))
      ∷ []
    else []

unfoldable pub with_signing : Signing → Chain → ValInfo → Chain × ValInfo
with_signing no_module c i = (record c { slashing_ok = false }, i)
with_signing failed c i = (c, i)
with_signing (signing tomb missed until) c i =
    (c, record i { tombstoned = tomb; missed = missed; jailed_until = until })

unfoldable pub with_window : ℕ → Option ℤ → Chain → ValInfo → Chain × ValInfo
with_window now none c i = (c, i)
with_window now (some w) c i =
    if ltb_ℤ (pos 0) w
    then (record c { last_slashing_at = now }, record i { window = w })
    else (c, i)

-- The slashing part. The window is asked for where it is not known, or after half an hour.
unfoldable pub with_slashing : ℕ → Answers → Chain → ValInfo → Chain × ValInfo
unfolding with_window
with_slashing now a c i =
    let (c', i') = with_signing a.slashing c i in
    if (i'.window == pos 0 || longer now c'.last_slashing_at (pos (30 * minute))) && c'.slashing_ok
    then with_window now a.window c' i'
    else (c', i')

-- A validator with an address, at place `i` of the targets.
unfoldable pub learned :
    ℕ
    → Bool
    → Answers
    → ℕ
    → Target
    → Chain
    → Staking
    → List ℕ
    → List ℕ
    → Chain × Target × List Alert
learned now slashing a i t c s addr vc =
    let old = old_info t.info in
    let new = next_info old s addr vc in
    let sent = stake_change c now t old new in
    let c' = record c { by_addr = insert new.cons_hex i c.by_addr } in
    let (c'', new') = (if slashing then with_slashing now a c' new else (c', new)) in
    (c'', record t { info = some new' }, sent)

unfoldable pub known_address :
    ℕ → Bool → Answers → ℕ → Target → Chain → Staking → Resolved → Chain × Target × List Alert
unfolding learned
known_address now slashing a i t c s (resolved addr vc) = learned now slashing a i t c s addr vc
known_address now slashing a i t c s _ = (c, t, [])

unfoldable pub known_staking :
    ℕ → Bool → Answers → ℕ → Target → Chain → Option Staking → Chain × Target × List Alert
unfolding known_address labelled
known_staking now slashing a i t c none = (c, t, [])
known_staking now slashing a i t c (some s) =
    let vc = t.vc in
    known_address now slashing a i t c (labelled vc s)
      (resolve_cons_address vc.valoper_address vc.valcons_override vc.cons_prefix s.cons_addr)

-- One round of the loop. `slashing` is what the chain's flag was at the start.
unfoldable pub refresh_target :
    ℕ → Bool → Answers → ℕ → Target → Chain → Chain × Target × List Alert
unfolding known_staking
refresh_target now slashing a i t c = known_staking now slashing a i t c (staking_of t.vc a.staking)

unfoldable pub refresh_targets :
    ℕ → Bool → (ℕ → Answers) → ℕ → List Target → Chain → Chain × List Target × List Alert
refresh_targets now slashing answers i [] c = (c, [], [])
refresh_targets now slashing answers i (t ∷ ts) c =
    let (c', t', sent) = refresh_target now slashing (answers i) i t c in
    let (c'', ts', more) = refresh_targets now slashing answers (suc i) ts c' in
    (c'', t' ∷ ts', sent ++ more)

-- `refreshValInfo`, but for the metrics. Without a client nothing is asked.
unfoldable pub refresh_val_info :
    ℕ → Option (List SetEntry) → (ℕ → Answers) → Chain → Chain × List Alert
refresh_val_info now listing answers c =
    let (c1, first) =
      (if c.cfg.alerts.set_watch_enabled then set_watch now listing c else (c, [])) in
    let (c2, ts, second) = refresh_targets now c.slashing_ok answers 0 c1.targets c1 in
    if c.client then (record c2 { targets = ts }, first ++ second) else (c, [])
