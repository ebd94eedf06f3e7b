-- ===== src/Monitor/Refresh/Link.antt =====
-- A refresh leaves the client of the chain, and the mark that it has no nodes, as they are.
use cometduty.Prelude.{ℕ, suc, Bool, List, [], ◌∷◌, Option, none, some, ◌≡◌, refl, ◌∙◌, ◌*◌}
use cometduty.Prelude.{if_cases, if◌then◌else◌, ◌==◌, string_eq, ◌||◌, ◌&&◌}
use cometduty.Prelude.Int.{ℤ, pos, ltb_ℤ, int_eq}
use cometduty.Prelude.Time.{longer, minute}
use cometduty.Prelude.Maps.{insert}
use cometduty.Alert.{Alert}
use cometduty.Monitor.State.{Chain, Target, ValInfo, SetEntry}
use cometduty.Monitor.Resolve.{
  Resolved, resolved, bad_override, bad_valcons, no_address, bad_valoper, no_prefix, not_encoded,
}
use cometduty.Monitor.SetWatch.{set_watch}
use cometduty.Monitor.Refresh.{
  Answers, Staking, Signing, no_module, failed, signing, with_signing, with_window, with_slashing,
  learned, known_address, known_staking, refresh_target, refresh_targets, refresh_val_info,
  staking_of, labelled, next_info, old_info,
}

-- The same client and the same mark.
pub record IsLinked (c c' : Chain) : Type 0 where
  pub client : c'.client ≡ c.client
  pub no_nodes : c'.no_nodes ≡ c.no_nodes

same : (c : Chain) → IsLinked c c
same c = record { client = refl; no_nodes = refl }

linked : (a b c : Chain) → IsLinked a b → IsLinked b c → IsLinked a c
linked a b c h k = record { client = k.client ∙ h.client; no_nodes = k.no_nodes ∙ h.no_nodes }

signing-IsLinked : (s : Signing) (c : Chain) (i : ValInfo) → IsLinked c (with_signing s c i).0
unfolding with_signing
signing-IsLinked no_module c i = record { client = refl; no_nodes = refl }
signing-IsLinked failed c i = same c
signing-IsLinked (signing tomb missed until) c i = same c

window-IsLinked :
    (now : ℕ) (w : Option ℤ) (c : Chain) (i : ValInfo) → IsLinked c (with_window now w c i).0
unfolding with_window
window-IsLinked now none c i = same c
window-IsLinked now (some w) c i =
    if_cases (λ (r : Chain × ValInfo). IsLinked c r.0) (ltb_ℤ (pos 0) w)
      (λ e. record { client = refl; no_nodes = refl }) (λ e. same c)

slashing-IsLinked :
    (now : ℕ) (a : Answers) (c : Chain) (i : ValInfo) → IsLinked c (with_slashing now a c i).0
unfolding with_slashing
slashing-IsLinked now a c i =
    let first = signing-IsLinked a.slashing c i in
    let (c', i') = with_signing a.slashing c i in
    if_cases (λ (r : Chain × ValInfo). IsLinked c r.0)
      ((i'.window == pos 0 || longer now c'.last_slashing_at (pos (30 * minute))) && c'.slashing_ok)
      (λ e. linked c c' _ first (window-IsLinked now a.window c' i')) (λ e. first)

module _ (now : ℕ) (slashing : Bool) where
  learned-IsLinked :
      (a : Answers) (i : ℕ) (t : Target) (c : Chain) (s : Staking) (addr vc : List ℕ)
      → IsLinked c (learned now slashing a i t c s addr vc).0
  unfolding learned
  learned-IsLinked a i t c s addr vc =
      let new = next_info (old_info t.info) s addr vc in
      let c' = record c { by_addr = insert new.cons_hex i c.by_addr } in
      let here : IsLinked c c' = record { client = refl; no_nodes = refl } in
      if_cases (λ (r : Chain × ValInfo). IsLinked c r.0) slashing
        (λ e. linked c c' _ here (slashing-IsLinked now a c' new)) (λ e. here)

  address-IsLinked :
      (a : Answers) (i : ℕ) (t : Target) (c : Chain) (s : Staking) (r : Resolved)
      → IsLinked c (known_address now slashing a i t c s r).0
  unfolding known_address
  address-IsLinked a i t c s (resolved addr vc) = learned-IsLinked a i t c s addr vc
  address-IsLinked a i t c s bad_override = same c
  address-IsLinked a i t c s bad_valcons = same c
  address-IsLinked a i t c s no_address = same c
  address-IsLinked a i t c s bad_valoper = same c
  address-IsLinked a i t c s no_prefix = same c
  address-IsLinked a i t c s not_encoded = same c

  staking-IsLinked :
      (a : Answers) (i : ℕ) (t : Target) (c : Chain) (o : Option Staking)
      → IsLinked c (known_staking now slashing a i t c o).0
  unfolding known_staking
  staking-IsLinked a i t c none = same c
  staking-IsLinked a i t c (some s) = address-IsLinked a i t c (labelled t.vc s) _

  targets-IsLinked :
      (answers : ℕ → Answers) (i : ℕ) (ts : List Target) (c : Chain)
      → IsLinked c (refresh_targets now slashing answers i ts c).0
  unfolding refresh_targets refresh_target
  targets-IsLinked answers i [] c = same c
  targets-IsLinked answers i (t ∷ ts) c =
      linked c _ _ (staking-IsLinked (answers i) i t c (staking_of t.vc (answers i).staking))
        (targets-IsLinked answers (suc i) ts _)

watch-IsLinked :
    (now : ℕ) (listing : Option (List SetEntry)) (c : Chain)
    → IsLinked c (set_watch now listing c).0
unfolding set_watch
watch-IsLinked now none c = same c
watch-IsLinked now (some es) c =
    if_cases (λ (r : Chain × List Alert). IsLinked c r.0) c.set_primed
      (λ e. record { client = refl; no_nodes = refl })
      (λ e. record { client = refl; no_nodes = refl })

pub refresh_val_info-IsLinked :
    (now : ℕ) (listing : Option (List SetEntry)) (answers : ℕ → Answers) (c : Chain)
    → IsLinked c (refresh_val_info now listing answers c).0
unfolding refresh_val_info
refresh_val_info-IsLinked now listing answers c =
    let watched = (if c.cfg.alerts.set_watch_enabled then set_watch now listing c else (c, [])) in
    let first : IsLinked c watched.0 =
      if_cases (λ (r : Chain × List Alert). IsLinked c r.0) c.cfg.alerts.set_watch_enabled
        (λ e. watch-IsLinked now listing c) (λ e. same c) in
    let both =
      linked c watched.0 _ first
        (targets-IsLinked now c.slashing_ok answers 0 watched.0.targets watched.0) in
    if_cases (λ (r : Chain × List Alert). IsLinked c r.0) c.client
      (λ e. record { client = both.client; no_nodes = both.no_nodes }) (λ e. same c)
