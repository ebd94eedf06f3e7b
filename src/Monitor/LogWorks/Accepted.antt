-- ===== src/Monitor/LogWorks/Accepted.antt =====
-- What is watched of a log that `Validate` finds nothing fatal in.
use cometduty.Prelude.{
  Bool, true, false, List, [], ◌∷◌, ◌++◌, String, Option, none, some, ◌≡◌, refl, sym, ap, ◌∙◌, not,
  ◌||◌, any, arith,
}
use mathlib.Core.Logic.Or
use mathlib.Core.Path.{subst}
use mathlib.Core.List.{
  Mem, Mem-prop, not-mem-nil, mem-cons_self, eq-or-mem_of_mem-cons, mem-append_left,
  mem-append_right,
}
use cometduty.Prelude.{◌==◌, string_eq}
use cometduty.Prelude.Int.{ℤ}
use cometduty.Prelude.Maps.{is_some}
use cometduty.Config.{LogConfig, is_chain_only}
use cometduty.Config.Validate.Fatal.{has_bad_logs, has_bad_source, is_bad_rule}
use cometduty.Alert.Silence.{Regexp}
use cometduty.Logs.{Rule, compile_rules}
use cometduty.Logs.Packs.{default_rules}
use cometduty.Logs.Compiled.{compile_rules-is_some, errors}
use cometduty.Monitor.State.{NodeState, Chain}
use cometduty.Monitor.LogWorks.{
  Source, Work, new_docker_source, new_file_source, new_source, log_work, work_with, rules_or,
  node_works, kernel_work, log_works,
}

docker-is_some :
    (host container : String) (tail : ℤ)
    → is_some (new_docker_source host container tail) ≡ not (container == "")
unfolding new_docker_source
docker-is_some host container tail = ground arith

source-is_some : (l : LogConfig) → is_some (new_source l) ≡ not (has_bad_source l)
unfolding new_source new_file_source
source-is_some l = ground (arith, docker-is_some l.docker_host l.container l.tail)

any-append :
    {A : Type 0} (p : A → Bool) (xs ys : List A) → any p (xs ++ ys) ≡ (any p xs || any p ys)
any-append p [] ys = refl
any-append p (x ∷ xs) ys = ground (arith, any-append p xs ys)

held : {A : Type 0} (o : Option A) → is_some o ≡ true → (x : A) × (o ≡ some x)
held none h = cc
held (some x) h = (x, refl)

-- What is watched: the source of the log, with all the rules, those of the pack first.
abbrev IsWatched : Regexp → NodeState → LogConfig → List Work → Type 0
IsWatched regexp n l works =
    (src : Source) × (rules : List Rule) × (new_source l ≡ some src)
    × (compile_rules regexp (default_rules ++ l.rules) ≡ some rules)
    × (works ≡ record { node = n; source = src; rules = rules; kernel = false } ∷ [])

work_of :
    (regexp : Regexp) (n : NodeState) (l : LogConfig) (src : Source) (rules : List Rule)
    → l.enabled ≡ true
    → new_source l ≡ some src
    → compile_rules regexp (default_rules ++ l.rules) ≡ some rules
    → log_work regexp n (some l)
      ≡ record { node = n; source = src; rules = rules; kernel = false } ∷ []
unfolding log_work work_with rules_or
work_of regexp n l src rules e hs hr = rw (hs, hr, e)

work-IsWatched :
    (regexp : Regexp) (n : NodeState) (l : LogConfig)
    → l.enabled ≡ true
    → is_some (new_source l) ≡ true
    → is_some (compile_rules regexp (default_rules ++ l.rules)) ≡ true
    → IsWatched regexp n l (log_work regexp n (some l))
work-IsWatched regexp n l e h k =
    let (src, hs) = held (new_source l) h in
    let (rules, hr) = held (compile_rules regexp (default_rules ++ l.rules)) k in
    (src, rules, hs, hr, work_of regexp n l src rules e hs hr)

log_work-IsWatched :
    (regexp : Regexp) (n : NodeState) (l : LogConfig)
    → l.enabled ≡ true
    → has_bad_logs (errors regexp) (some l) ≡ false
    → any (is_bad_rule (errors regexp)) default_rules ≡ false
    → IsWatched regexp n l (log_work regexp n (some l))
log_work-IsWatched regexp n l e h d =
    work-IsWatched regexp n l e (ground (arith, source-is_some l)) (
      compile_rules-is_some regexp (default_rules ++ l.rules)
      ∙ ground (arith, any-append (is_bad_rule (errors regexp)) default_rules l.rules))

-- What is watched for a node of the chain is watched for the chain.
works-of_node :
    (regexp : Regexp) (w : Work) (n : NodeState) (ns : List NodeState)
    → Mem n ns
    → Mem w (log_work regexp n n.cfg.logs)
    → Mem w (node_works regexp false ns)
unfolding node_works
works-of_node regexp w n [] m h = absurd (not-mem-nil m)
works-of_node regexp w n (x ∷ ns) m h =
    let kernel = kernel_work regexp x x.cfg.host in
    mem-append_right kernel (
      Or.elim Mem-prop (eq-or-mem_of_mem-cons m)
        (λ e.
          mem-append_left (node_works regexp false ns)
            (subst (λ (y : NodeState). Mem w (log_work regexp y y.cfg.logs)) e h))
        (λ k. mem-append_right (log_work regexp x x.cfg.logs) (works-of_node regexp w n ns k h)))

pub log_works-IsWatched :
    (regexp : Regexp) (c : Chain) (n : NodeState) (l : LogConfig)
    → is_chain_only c.cfg ≡ false
    → Mem n c.nodes
    → n.cfg.logs ≡ some l
    → l.enabled ≡ true
    → has_bad_logs (errors regexp) (some l) ≡ false
    → any (is_bad_rule (errors regexp)) default_rules ≡ false
    → (src : Source) × (rules : List Rule) × (new_source l ≡ some src)
      × (compile_rules regexp (default_rules ++ l.rules) ≡ some rules)
      × Mem (record { node = n; source = src; rules = rules; kernel = false }) (log_works regexp c)
unfolding log_works
log_works-IsWatched regexp c n l role m logs e h d =
    let (src, rules, hs, hr, works) = log_work-IsWatched regexp n l e h d in
    let w : Work = record { node = n; source = src; rules = rules; kernel = false } in
    let mine =
      subst (Mem w) (sym (ap (log_work regexp n) logs ∙ works)) (mem-cons_self {a = w} {l = []}) in
    (
      src,
      rules,
      hs,
      hr,
      subst (λ b. Mem w (node_works regexp b c.nodes)) (sym role)
          (works-of_node regexp w n c.nodes m mine),
    )
