-- ===== src/Strategy/Auto.antt =====
-- daemon/xray_strategy.go: `flapping`, and the classifier that moves automatic pools between stable and
-- agile.
pub mod Rounds
pub mod Modes
use em_wall.Prelude.{
  ℕ, ◌+◌, ◌*◌, Bool, true, false, not, ◌&&◌, ◌||◌, Option, none, some, List, [], ◌∷◌, ◌++◌, Text,
  codes, ◌==◌, text_eq, leb, lookup, insert, if◌then◌else◌,
}
use em_wall.Text.{contains_any, sort_texts}
use em_wall.Strategy.{auto_flips, auto_flapping_pct, auto_min_flapping, auto_pick_losses, auto_calm}

-- PoolTimelineDTO and PoolNodeTimelineDTO, as far as this code reads them
pub record NodeTimeline : Type 0 where
  pub states : Text
  pub flips : ℕ

pub record PoolTimeline : Type 0 where
  pub pick_losses : ℕ
  pub nodes : List NodeTimeline

abbrev pub is_observed : NodeTimeline → Bool
is_observed n = contains_any n.states (codes "AFDP")

unfoldable pub observed : List NodeTimeline → ℕ
unfolding contains_any
observed [] = 0
observed (n ∷ nodes) = let rest = observed nodes in if is_observed n then rest + 1 else rest

unfoldable pub flappers : List NodeTimeline → ℕ
unfolding contains_any
flappers [] = 0
flappers (n ∷ nodes) =
    let rest = flappers nodes in if is_observed n && leb auto_flips n.flips then rest + 1 else rest

unfoldable pub flapping : PoolTimeline → Bool
unfolding flappers observed
flapping p =
    if leb auto_pick_losses p.pick_losses
    then true
    else leb auto_min_flapping (flappers p.nodes)
      && leb (auto_flapping_pct * observed p.nodes) (flappers p.nodes * 100)

pub record AutoState : Type 0 where
  pub agile : Bool
  pub since : ℕ
  pub last_flappy : ℕ

abbrev pub AutoPools : Type 0
AutoPools = List (Text × AutoState)

abbrev pub agile_state : Option AutoState → Bool
agile_state none = false
agile_state (some s) = s.agile

-- agile
unfoldable pub is_agile : AutoPools → Text → Bool
unfolding lookup
is_agile pools k = agile_state (lookup k pools)

pub record AutoEvent : Type 0 where
  pub pool_key : Text
  pub agile : Bool

abbrev pub or_started : ℕ → Option AutoState → AutoState
or_started now none = record { agile = false; since = now; last_flappy = 0 }
or_started now (some s) = s

-- what evaluate makes of the state of one pool, and the switch, where it made one
unfoldable pub judge : PoolTimeline → ℕ → AutoState → AutoState × Option Bool
unfolding flapping
judge p now s =
    if flapping p
    then (if not s.agile
        then (record { agile = true; since = now; last_flappy = now }, some true)
        else (record s { last_flappy = now }, none))
    else if s.agile && leb (s.last_flappy + auto_calm) now
    then (record s { agile = false; since = now }, some false)
    else (s, none)

abbrev pub event_of : Text → Option Bool → List AutoEvent
event_of k none = []
event_of k (some a) = record { pool_key = k; agile = a } ∷ []

-- the pools that are no longer automatic are forgotten
unfoldable pub keep_auto : (Text → Bool) → AutoPools → AutoPools
keep_auto auto [] = []
keep_auto auto ((k, s) ∷ pools) =
    let rest = keep_auto auto pools in if auto k then (k, s) ∷ rest else rest

abbrev pub keys_of : List (Text × PoolTimeline) → List Text
keys_of [] = []
keys_of ((k, p) ∷ windows) = k ∷ keys_of windows

abbrev pub window_at : List (Text × PoolTimeline) → Text → PoolTimeline
window_at windows k = elim (lookup k windows) [
  | none ↦ record { pick_losses = 0; nodes = [] }
  | some p ↦ p
]

-- the loop over the sorted keys
unfoldable pub evaluate_keys :
    List (Text × PoolTimeline)
    → (Text → Bool)
    → ℕ
    → List Text
    → AutoPools
    → AutoPools × List AutoEvent
unfolding lookup insert judge
evaluate_keys windows auto now [] pools = (pools, [])
evaluate_keys windows auto now (k ∷ keys) pools =
    let (s, switched) = judge (window_at windows k) now (or_started now (lookup k pools)) in
    let (skipped, skipped_events) = evaluate_keys windows auto now keys pools in
    let (after, events) = evaluate_keys windows auto now keys (insert k s pools) in
    if auto k then (after, event_of k switched ++ events) else (skipped, skipped_events)

-- evaluate
unfoldable pub evaluate :
    List (Text × PoolTimeline) → (Text → Bool) → ℕ → AutoPools → AutoPools × List AutoEvent
unfolding keep_auto evaluate_keys sort_texts
evaluate windows auto now pools =
    evaluate_keys windows auto now (sort_texts (keys_of windows)) (keep_auto auto pools)
