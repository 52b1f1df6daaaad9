-- ===== src/Decision.antt =====
-- core/decision/decision.go: what the DNS proxy does with a name, and the tunnel with an address.
-- The rule source and the expander are arguments: what `List` and `Expansions` returned, or that they
-- failed. The message of an error is not modelled.
pub mod Laws
use em_wall.Prelude.{
  ℕ, Bool, true, false, ◌≡◌, Option, none, some, List, [], ◌∷◌, Text, ◌==◌, text_eq, codes, lookup,
  if◌then◌else◌, map,
}
use em_wall.Net.{Ip, Parsers}
use em_wall.Rules.{Action, Rule, block, allow, route, other}
use em_wall.Rules.Index
use em_wall.Rules.Index.{Index, new_index}

pub data Outcome : Type 0 where
  allowed blocked routed : Outcome

unfoldable pub outcome_name : Outcome → Text
outcome_name allowed = codes "allow"
outcome_name blocked = codes "block"
outcome_name routed = codes "route"

pub record Decision : Type 0 where
  pub outcome : Outcome
  pub interface : Text
  pub rule_id : ℕ
  pub pattern : Text

abbrev pub no_rule : Decision
no_rule = record { outcome = allowed; interface = []; rule_id = 0; pattern = [] }

unfoldable pub of_action : Action → Rule → Decision
of_action block r = record {
  outcome = blocked;
  interface = [];
  rule_id = r.id;
  pattern = r.pattern;
}
of_action allow r = record {
  outcome = allowed;
  interface = [];
  rule_id = r.id;
  pattern = r.pattern;
}
of_action route r = record {
  outcome = routed;
  interface = r.interface;
  rule_id = r.id;
  pattern = r.pattern;
}
of_action (other s) r = no_rule

-- the `switch` that Decide and DecideIP share, over the rule found
unfoldable pub of_rule : Option Rule → Decision
unfolding of_action
of_rule none = no_rule
of_rule (some r) = of_action r.action r

-- The engine's state is the compiled index.
unfoldable pub decide : Index → Text → Decision
unfolding of_rule Index.most_specific
decide cache name = of_rule (Index.most_specific cache name)

unfoldable pub decide_ip : Index → Ip → Decision
unfolding of_rule Index.most_specific_ip
decide_ip cache ip = of_rule (Index.most_specific_ip cache ip)

-- `none` is a call that returned an error.
pub data Fetch {ℓ} (A : Type ℓ) : Type ℓ where
  fetched : A → Fetch A
  failed : Fetch A

-- if v, ok := rewrite[list[i].Interface]; ok { list[i].Interface = v }
unfoldable pub expand : List (Text × Text) → Rule → Rule
unfolding lookup
expand rewrite r = elim (lookup r.interface rewrite) [
  | some v ↦ record r { interface = v }
  | none ↦ r
]

-- The engine's cache after Reload, and whether it returned an error. `exp` is none without an expander.
unfoldable pub reload :
    Parsers → Fetch (List Rule) → Option (Fetch (List (Text × Text))) → Index → Index × Bool
unfolding expand new_index
reload net failed exp cache = (cache, true)
reload net (fetched list) none cache = (new_index net list, false)
reload net (fetched list) (some failed) cache = (cache, true)
reload net (fetched list) (some (fetched rewrite)) cache =
    (new_index net (map (expand rewrite) list), false)
