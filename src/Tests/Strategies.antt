-- ===== src/Tests/Strategies.antt =====
-- Dialers that lead back, and pools of two or three members.
use em_wall.Prelude.{
  ℕ, ◌+◌, ◌≤◌, ◌≡◌, ◌≢◌, ◌↔◌, min, refl, Bool, true, false, Option, none, some, List, [], ◌∷◌, Text,
  codes, length, delete, lookup, text_eq, text_beq, All, arith, inl,
}
use em_wall.Outbound.{DialerRef, xraysub, normalize_name}
use em_wall.Outbound.Cycle.{Config, dialer_graph, detect_dialer_cycle}
use em_wall.Outbound.Cycle.Search.{HasCycle}
use em_wall.Outbound.Cycle.Correct.{detect_dialer_cycle_ends, detect_dialer_cycle_lem}
use em_wall.NodePark.{NodeStatus}
use em_wall.Strategy.{auto_calm}
use em_wall.Strategy.Auto.{PoolTimeline, AutoPools, flapping, window_at, evaluate}
use em_wall.Strategy.Auto.Modes.{Reachable, start, round, Flapped, agile_dwells}
use em_wall.Strategy.Agile.{AgileSlot, AgilePick, no_pick, agile_active_max, pick_agile}
use em_wall.Strategy.Agile.Picked.{pickable, pick_agile_lem}
use em_wall.Strategy.Agile.Usable.{answering, MayCarry}

-- `b` goes through `a`, which is to go through `b`
abbrev stored : List Config
stored = record { id = 2; name = codes "b"; dialer = codes "xray:a" } ∷ []

detect_dialer_cycle_ends_example : detect_dialer_cycle stored 1 (codes "a") (codes "xray:b") ≢ none
detect_dialer_cycle_ends_example = detect_dialer_cycle_ends stored 1 (codes "a") (codes "xray:b")

detect_dialer_cycle_lem_example :
    (detect_dialer_cycle stored 1 (codes "a") (codes "xray:b") ≡ some true)
    ↔ HasCycle (dialer_graph stored 1 (codes "a") (codes "xray:b")) (normalize_name (codes "a"))
detect_dialer_cycle_lem_example = detect_dialer_cycle_lem stored 1 (codes "a") (codes "xray:b")

leads_back : detect_dialer_cycle stored 1 (codes "a") (codes "xray:b") ≡ some true
unfolding detect_dialer_cycle text_beq delete
leads_back = refl

leads_on : detect_dialer_cycle stored 1 (codes "a") (codes "proxy:b") ≡ some false
unfolding detect_dialer_cycle text_beq delete
leads_on = refl

abbrev pool : Text
pool = codes "xraysub:one"

abbrev from_sub : List DialerRef
from_sub = record { kind = xraysub; name = codes "one" } ∷ []

abbrev subs : Text → Option Text
subs name = some (codes "Agile")

-- twice the whole pick died
abbrev bad_window : PoolTimeline
bad_window = record { pick_losses = 2; nodes = [] }

abbrev calm_window : PoolTimeline
calm_window = record { pick_losses = 0; nodes = [] }

abbrev is_auto : Text → Bool
is_auto k = true

abbrev turned : AutoPools
turned = (evaluate ((pool, bad_window) ∷ []) is_auto 5 []).0

abbrev turned_run : Reachable turned 5
turned_run = round ((pool, bad_window) ∷ []) is_auto 5 later start
  where
    later : 0 ≤ 5
    later = omega arith

turned_state : lookup pool turned ≡ some (record { agile = true; since = 5; last_flappy = 5 })
unfolding evaluate lookup text_beq
turned_state = refl

calmed_state :
    lookup pool (evaluate ((pool, calm_window) ∷ []) is_auto 1800000000005 turned).0
    ≡ some (record { agile = false; since = 1800000000005; last_flappy = 5 })
unfolding evaluate lookup text_beq
calmed_state = refl

turned-Flapped : Flapped pool 5 turned_run
unfolding Flapped flapping lookup text_beq
turned-Flapped = (refl, inl (refl, refl))

agile_dwells_example :
    (5 + auto_calm ≤ 1800000000005)
    × (5 + auto_calm ≤ 1800000000005)
    × (flapping (window_at ((pool, calm_window) ∷ []) pool) ≡ false)
agile_dwells_example =
    agile_dwells turned 5 turned_run ((pool, calm_window) ∷ []) is_auto 1800000000005 pool
      (record { agile = true; since = 5; last_flappy = 5 })
      (record { agile = false; since = 1800000000005; last_flappy = 5 }) 5 turned_state refl
      turned-Flapped calmed_state refl

abbrev near : Text
near = codes "near"

abbrev far : Text
far = codes "far"

abbrev pair : AgileSlot
pair = record {
  index = 0;
  pool_key = pool;
  agile = true;
  members = near ∷ far ∷ [];
  broken = near ∷ [];
}

-- every member answers
abbrev healthy : ℕ → Text → Option NodeStatus
healthy i k = some (record { alive = true; all = 4; failed = 1 })

abbrev equal_cost : Text → Bool → ℕ
equal_cost k was = 90

pick_agile_lem_example :
    ((pick_agile equal_cost healthy pair no_pick ≡ none → answering healthy 0 (near ∷ far ∷ []) ≡ 0)
      × (answering healthy 0 (near ∷ far ∷ []) ≡ 0
          → pick_agile equal_cost healthy pair no_pick ≡ none))
    × ((out : AgilePick)
        → pick_agile equal_cost healthy pair no_pick ≡ some out
        → (length out.active ≡ min agile_active_max (pickable healthy pair))
          × All (MayCarry healthy pair) out.active
          × MayCarry healthy pair out.spare)
pick_agile_lem_example = pick_agile_lem equal_cost healthy pair no_pick
