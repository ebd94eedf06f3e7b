-- ===== src/Monitor/Pick/First.antt =====
-- The endpoint that is picked, and what a round of `Run` makes of it.
use cometduty.Prelude.{
  ℕ, suc, true, false, List, [], ◌∷◌, String, Option, none, some, ◌≡◌, refl, ap, ◌∙◌, Bool, arith,
}
use cometduty.Prelude.{if◌then◌else◌, not, ◌||◌, ◌&&◌, ◌==◌, string_eq}
use cometduty.Prelude.Maps.{is_some}
use cometduty.Prelude.Text.{sprintf}
use mathlib.Core.Path.{subst}
use cometduty.Monitor.State.{Chain, NodeState, SetEntry}
use cometduty.Monitor.Round.{set_no_nodes}
use cometduty.Monitor.Refresh.{Answers}
use cometduty.Monitor.Refresh.Link.{refresh_val_info-IsLinked}
use cometduty.Monitor.Pick.{
  EndpointReply, bad_url, failed, answered, healthy, refused, Search, probe_endpoint, is_suitable,
  search_nodes, search_step, search_public, fallback, pick_client, with_picked, with_public,
  run_round, round_after, error_after,
}

-- An endpoint that answers on the network and does not catch up.
abbrev pub is_serving : String → EndpointReply → Bool
is_serving want (bad_url e) = false
is_serving want (failed e) = false
is_serving want (answered network catching height) = network == want && not catching

-- The URL of the first node that answers on the chain's network and does not catch up.
abbrev pub first_suitable : String → (ℕ → EndpointReply) → ℕ → List NodeState → Option String
first_suitable want replies i [] = none
first_suitable want replies i (n ∷ ns) =
    let rest = first_suitable want replies (suc i) ns in
    if is_serving want (replies i) then some n.cfg.url else rest

-- The first such public endpoint, where those are allowed and listed.
abbrev first_public : String → List (String × EndpointReply) → Option String
first_public want [] = none
first_public want ((u, r) ∷ us) =
    let rest = first_public want us in if is_serving want r then some u else rest

abbrev pub public_choice : Bool → String → Option (List (String × EndpointReply)) → Option String
public_choice allowed want none = none
public_choice allowed want (some us) = if allowed then first_public want us else none

-- The first choice, or else the second.
abbrev pub or_else : Option String → Option String → Option String
or_else none o = o
or_else (some u) o = some u

-- The endpoint that a chain should have.
abbrev pub choice :
    (ℕ → EndpointReply) → Option (List (String × EndpointReply)) → Chain → Option String
choice replies public c =
    or_else (first_suitable c.cfg.chain_id replies 0 c.nodes)
      (public_choice c.cfg.public_fallback c.cfg.chain_id public)

pub suitable-serving : (want : String) (r : EndpointReply) → is_suitable want r ≡ is_serving want r
unfolding is_suitable
suitable-serving want (bad_url e) = refl
suitable-serving want (failed e) = refl
suitable-serving want (answered network catching height) = ground arith

search-public :
    (want : String) (us : List (String × EndpointReply))
    → search_public want us ≡ first_public want us
unfolding search_public
search-public want [] = refl
search-public want ((u, r) ∷ us) = ground (arith, suitable-serving want r, search-public want us)

fallback-public :
    (c : Chain) (public : Option (List (String × EndpointReply)))
    → fallback c public ≡ public_choice c.cfg.public_fallback c.cfg.chain_id public
unfolding fallback
fallback-public c none = ground arith
fallback-public c (some us) = ground (arith, search-public c.cfg.chain_id us)

step-picked :
    (now : ℕ) (want : String) (r : EndpointReply) (err : Option String) (n : NodeState)
    (ns : List NodeState) (rest : Search)
    → (search_step now (probe_endpoint want r) err n ns rest).picked
      ≡ (if is_suitable want r then some n.cfg.url else rest.picked)
unfolding search_step probe_endpoint is_suitable
step-picked now want (bad_url e) err n ns rest = refl
step-picked now want (failed e) err n ns rest = refl
step-picked now want (answered network true height) err n ns rest =
    let wrong = sprintf "wrong chain_id %s (want %s)" (network ∷ want ∷ []) in
    elim (network == want)
      as (λ same.
        (search_step now
          (if not same
            then refused wrong (some (true, height))
            else refused "node is catching up" (some (true, height)))
          err n ns rest).picked
        ≡ (if not (not same || true) then some n.cfg.url else rest.picked)) [
          | true ↦ refl
          | false ↦ refl
        ]
step-picked now want (answered network false height) err n ns rest =
    let wrong = sprintf "wrong chain_id %s (want %s)" (network ∷ want ∷ []) in
    elim (network == want)
      as (λ same.
        (search_step now (if not same then refused wrong (some (false, height)) else healthy height)
          err n ns rest).picked
        ≡ (if not (not same || false) then some n.cfg.url else rest.picked)) [
          | true ↦ refl
          | false ↦ refl
        ]

search-picked :
    (now : ℕ) (want : String) (replies : ℕ → EndpointReply) (i : ℕ) (err : Option String)
    (ns : List NodeState)
    → (search_nodes now want replies i err ns).picked ≡ first_suitable want replies i ns
unfolding search_nodes
search-picked now want replies i err [] = refl
search-picked now want replies i err (n ∷ ns) =
    step-picked now want (replies i) err n ns _
    ∙ (ap
        (λ b.
          if b
          then some n.cfg.url
          else (search_nodes now want replies (suc i)
              (error_after err (probe_endpoint want (replies i))) ns).picked)
        (suitable-serving want (replies i)))
    ∙ ap (λ o. if is_serving want (replies i) then some n.cfg.url else o)
        (search-picked now want replies (suc i) _ ns)

-- The chain has just the endpoint that it should have, and an error stands for none.
abbrev pub HasChosen : Option String → Chain × Option String → Type 0
HasChosen none r = (r.0.client ≡ false) × (is_some r.1 ≡ true)
HasChosen (some u) r = (r.0.client ≡ true) × (r.0.client_url ≡ u) × (is_some r.1 ≡ false)

public-HasChosen : (o err : Option String) (c : Chain) → HasChosen o (with_public o err c)
unfolding with_public
public-HasChosen none err c = (refl, refl)
public-HasChosen (some u) err c = (refl, refl, refl)

picked-HasChosen :
    (o : Option String) (public : Option (List (String × EndpointReply))) (err : Option String)
    (c : Chain)
    → HasChosen (or_else o (fallback c public)) (with_picked o public err c)
unfolding with_picked
picked-HasChosen none public err c = public-HasChosen (fallback c public) err c
picked-HasChosen (some u) public err c = (refl, refl, refl)

-- `pickClient` gives the chain a client for the first node, in the order of the configuration, that
-- answers on the chain's network and does not catch up; without one, for the first such public
-- endpoint, where those are allowed; and without that it takes the client away and returns an error.
pub pick_client-HasChosen :
    (now : ℕ) (replies : ℕ → EndpointReply) (public : Option (List (String × EndpointReply)))
    (c : Chain)
    → HasChosen (choice replies public c) (pick_client now replies public c)
unfolding pick_client fallback
pick_client-HasChosen now replies public c =
    let s = search_nodes now c.cfg.chain_id replies 0 none c.nodes in
    subst
      (λ p.
        HasChosen (or_else (first_suitable c.cfg.chain_id replies 0 c.nodes) p)
          (pick_client now replies public c))
      (fallback-public c public)
      (subst (λ o. HasChosen (or_else o (fallback c public)) (pick_client now replies public c))
        (search-picked now c.cfg.chain_id replies 0 none c.nodes)
        (picked-HasChosen s.picked public s.first_err (record c { nodes = s.nodes })))

IsMarked : Option String → Chain → Type 0
IsMarked o c = (c.client ≡ is_some o) × (c.no_nodes ≡ not (is_some o))

round-IsMarked :
    (now : ℕ) (listing : Option (List SetEntry)) (answers : ℕ → Answers) (o : Option String)
    (r : Chain × Option String)
    → HasChosen o r
    → IsMarked o (round_after now listing answers r).0
unfolding round_after set_no_nodes IsMarked
round-IsMarked now listing answers none (c, none) (h, e) = cc
round-IsMarked now listing answers none (c, some e) (h, k) = (h, refl)
round-IsMarked now listing answers (some u) (c, some e) (h, k, l) = cc
round-IsMarked now listing answers (some u) (c, none) (h, k, l) =
    let kept = refresh_val_info-IsLinked now listing answers (set_no_nodes now false c) in
    (kept.client ∙ h, kept.no_nodes)

-- After a round of `Run` the chain has a client, and is not marked as without nodes, just where there
-- is an endpoint to choose.
pub run_round-recovers :
    (now : ℕ) (replies : ℕ → EndpointReply) (public : Option (List (String × EndpointReply)))
    (listing : Option (List SetEntry)) (answers : ℕ → Answers) (c : Chain)
    → let c' = (run_round now replies public listing answers c).0 in
      (c'.client ≡ is_some (choice replies public c))
      × (c'.no_nodes ≡ not (is_some (choice replies public c)))
unfolding run_round IsMarked
run_round-recovers now replies public listing answers c =
    round-IsMarked now listing answers (choice replies public c) (pick_client now replies public c)
      (pick_client-HasChosen now replies public c)
