-- ===== src/NodePark.antt =====
-- daemon/xray_nodepark.go: pool members that failed every ping for long are parked, and come back on
-- trial. A park state is a value of its map, times are nanoseconds, 0 the zero time, and an operation
-- takes the time. The receiver is not nil. `status` is the health of a slot's member, which the code
-- looks up under the tag of both.
pub mod Pools
pub mod Terms
use em_wall.Prelude.{
  ℕ, zero, suc, ◌+◌, ◌-◌, ◌*◌, Bool, true, false, not, ◌&&◌, ◌||◌, Option, none, some, List, [],
  ◌∷◌, ◌++◌, Text, ◌==◌, nat_eq, text_eq, ltb, leb, length, lookup, insert, delete, is_listed,
  if◌then◌else◌,
}

abbrev pub dead_before_park : ℕ
dead_before_park = 900000000000

abbrev pub trial_window : ℕ
trial_window = 180000000000

abbrev pub park_initial : ℕ
park_initial = 300000000000

abbrev pub park_max : ℕ
park_max = 3600000000000

-- nodeStatus, as far as this code reads it
pub record NodeStatus : Type 0 where
  pub alive : Bool
  pub all : ℕ
  pub failed : ℕ

unfoldable pub is_dead : NodeStatus → Bool
is_dead n = not n.alive && ltb 0 n.all && n.failed == n.all

pub record ParkState : Type 0 where
  pub dead_since : ℕ
  pub parked_until : ℕ
  pub park_for : ℕ
  pub on_trial : Bool

abbrev pub new_park_state : ParkState
new_park_state = record { dead_since = 0; parked_until = 0; park_for = 0; on_trial = false }

abbrev pub or_new : Option ParkState → ParkState
or_new none = new_park_state
or_new (some s) = s

abbrev pub Nodes : Type 0
Nodes = List (Text × ParkState)

-- what observe reads of a slot: its members' keys
pub record Slot : Type 0 where
  pub index : ℕ
  pub members : List Text
  pub never_parks : Bool

pub record ParkEvent : Type 0 where
  pub key : Text
  pub parked : Bool
  pub for_time : ℕ

-- parked: the keys that are parked now
unfoldable pub parked : Nodes → ℕ → List Text
parked [] now = []
parked ((k, s) ∷ nodes) now =
    let rest = parked nodes now in if ltb now s.parked_until then k ∷ rest else rest

pub alive_count : (ℕ → Text → Option NodeStatus) → ℕ → List Text → ℕ
alive_count status i [] = 0
alive_count status i (k ∷ keys) =
    let n = alive_count status i keys in
    elim (status i k) [ none ↦ n | some s ↦ if s.alive then n + 1 else n ]

-- ps.deadSince, set at the first dead observation
abbrev pub note_dead : ParkState → ℕ → ParkState
note_dead s now = if s.dead_since == 0 then record s { dead_since = now } else s

abbrev pub wait_for : ParkState → ℕ
wait_for s = if s.on_trial then trial_window else dead_before_park

abbrev pub next_park_for : ParkState → ℕ
next_park_for s =
    if s.park_for == 0
    then park_initial
    else if s.on_trial
    then (if ltb park_max (s.park_for * 2) then park_max else s.park_for * 2)
    else s.park_for

abbrev pub park : ParkState → ℕ → ParkState
park s now = record {
  dead_since = 0;
  parked_until = now + next_park_for s;
  park_for = next_park_for s;
  on_trial = false;
}

-- what the loop over a slot's members carries along
pub record Round : Type 0 where
  pub nodes : Nodes
  pub remaining : ℕ
  pub events : List ParkEvent

-- a dead member
unfoldable pub observe_dead : ℕ → ℕ → Text → Round → Round
unfolding lookup insert
observe_dead alive now key r =
    let s = note_dead (or_new (lookup key r.nodes)) now in
    if ltb now (s.dead_since + wait_for s) || alive == 0 || leb r.remaining 1
    then record r { nodes = insert key s r.nodes }
    else record {
      nodes = insert key (park s now) r.nodes;
      remaining = r.remaining - 1;
      events = r.events ++ (record { key = key; parked = true; for_time = next_park_for s } ∷ []);
    }

unfoldable pub observe_member : ℕ → ℕ → Option NodeStatus → Text → Round → Round
unfolding delete observe_dead is_dead
observe_member alive now none key r = r
observe_member alive now (some st) key r =
    if st.alive
    then record r { nodes = delete key r.nodes }
    else if is_dead st
    then observe_dead alive now key r
    else r

pub observe_members : (ℕ → Text → Option NodeStatus) → ℕ → ℕ → ℕ → List Text → Round → Round
unfolding observe_member
observe_members status i alive now [] r = r
observe_members status i alive now (k ∷ keys) r =
    observe_members status i alive now keys (observe_member alive now (status i k) k r)

-- one slot of observe
unfoldable pub observe_slot :
    (ℕ → Text → Option NodeStatus) → ℕ → Slot → Nodes → Nodes × List ParkEvent
unfolding observe_members alive_count
observe_slot status now sl nodes =
    let r =
      observe_members status sl.index (alive_count status sl.index sl.members) now sl.members
        (record { nodes = nodes; remaining = length sl.members; events = [] }) in
    if sl.never_parks then (nodes, []) else (r.nodes, r.events)

unfoldable pub observe :
    (ℕ → Text → Option NodeStatus) → ℕ → List Slot → Nodes → Nodes × List ParkEvent
unfolding observe_slot
observe status now [] nodes = (nodes, [])
observe status now (sl ∷ slots) nodes =
    let (n, es) = observe_slot status now sl nodes in
    let (m, fs) = observe status now slots n in (m, es ++ fs)

abbrev pub on_trial_again : ParkState → ParkState
on_trial_again s = record s { parked_until = 0; on_trial = true; dead_since = 0 }

abbrev pub is_over : ℕ → ParkState → Bool
is_over now s = not (s.parked_until == 0) && leb s.parked_until now

-- release; the events are of nodes that are back on trial
unfoldable pub release : Nodes → ℕ → Nodes × List ParkEvent
release [] now = ([], [])
release ((k, s) ∷ nodes) now =
    let (rest, events) = release nodes now in
    if is_over now s
    then ((k, on_trial_again s) ∷ rest, record { key = k; parked = false; for_time = 0 } ∷ events)
    else ((k, s) ∷ rest, events)

unfoldable pub release_all : Nodes → Nodes × List ParkEvent
release_all [] = ([], [])
release_all ((k, s) ∷ nodes) =
    let (rest, events) = release_all nodes in
    if not (s.parked_until == 0)
    then ((k, on_trial_again s) ∷ rest, record { key = k; parked = false; for_time = 0 } ∷ events)
    else ((k, s) ∷ rest, events)

unfoldable pub retain : (Text → Bool) → Nodes → Nodes
retain keys [] = []
retain keys ((k, s) ∷ nodes) =
    let rest = retain keys nodes in if keys k then (k, s) ∷ rest else rest

unfoldable pub forget : List Text → Nodes → Nodes
unfolding delete
forget [] nodes = nodes
forget (k ∷ keys) nodes = forget keys (delete k nodes)

abbrev pub not_listed : List Text → List Text → List Text
not_listed gone [] = []
not_listed gone (k ∷ keys) =
    if is_listed k gone then not_listed gone keys else k ∷ not_listed gone keys

-- withoutParked, on the members' keys
unfoldable pub without_parked : List Text → List Text → List Text
without_parked members gone =
    let out = not_listed gone members in
    if leb (length gone) 0 then members else if leb (length out) 0 then members else out
