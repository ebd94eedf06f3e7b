-- ===== src/Monitor/Alerting/Keys.antt =====
-- What an alert of the monitor keeps of what it was made from.
use cometduty.Prelude.{ℕ, Bool, String, Option, none, some, ◌≡◌, refl, ap, List, [], ◌∷◌, ◌++◌}
use cometduty.Alert.{Alert}
use cometduty.Monitor.State.{Chain, Target, ValInfo, NodeMeta}
use cometduty.Monitor.Alerting.{make_alert, with_target, with_meta}
use cometduty.Monitor.Alerting.{with_info}
use cometduty.Config.{ValidatorConfig}

-- The alert has the key, and resolves or raises, as asked.
abbrev Says : String → Bool → Alert → Type 0
Says key resolved a = (a.key ≡ key) × (a.resolved ≡ resolved)

with_meta-Says :
    (m : Option NodeMeta) (key : String) (r : Bool) (a : Alert)
    → Says key r a
    → Says key r (with_meta m a)
unfolding with_meta
with_meta-Says none key r a h = h
with_meta-Says (some m) key r a h = h

with_info-Says :
    (vc : ValidatorConfig) (i : Option ValInfo) (key : String) (r : Bool) (a : Alert)
    → Says key r a
    → Says key r (with_info vc i a)
unfolding with_info
with_info-Says vc none key r a h = h
with_info-Says vc (some i) key r a h = h

with_target-Says :
    (tg : Option Target) (key : String) (r : Bool) (a : Alert)
    → Says key r a
    → Says key r (with_target tg a)
unfolding with_target
with_target-Says none key r a h = h
with_target-Says (some tg) key r a h = with_info-Says tg.vc tg.info key r _ h

pub make_alert_says :
    (c : Chain) (now : ℕ) (tg : Option Target) (key : String) (resolved : Bool) (sev msg : String)
    → let a = make_alert c now tg key resolved sev msg in (a.key ≡ key) × (a.resolved ≡ resolved)
unfolding make_alert
make_alert_says c now tg key r sev msg =
    with_meta-Says _ key r _ (with_target-Says tg key r _ (refl, refl))

-- What matters of an alert for its pairing: the key, and whether it resolves.
unfoldable pub brief : List Alert → List (String × Bool)
brief [] = []
brief (a ∷ as') = (a.key, a.resolved) ∷ brief as'

pub brief-append : (xs ys : List Alert) → brief (xs ++ ys) ≡ brief xs ++ brief ys
unfolding brief
brief-append [] ys = refl
brief-append (x ∷ xs) ys = ap (◌∷◌ (x.key, x.resolved)) (brief-append xs ys)

pub brief_alert :
    (c : Chain) (now : ℕ) (tg : Option Target) (key : String) (resolved : Bool) (sev msg : String)
    → brief (make_alert c now tg key resolved sev msg ∷ []) ≡ (key, resolved) ∷ []
unfolding brief
brief_alert c now tg key resolved sev msg =
    let (k, r) = make_alert_says c now tg key resolved sev msg in λ i. (k i, r i) ∷ []
