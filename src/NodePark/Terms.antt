-- ===== src/NodePark/Terms.antt =====
-- How long a member is parked, and that it comes back.
use em_wall.Prelude.{
  ℕ, ◌+◌, ◌≤◌, ◌≡◌, ◌≢◌, refl, sym, subst, Bool, not, ◌||◌, Option, none, some, List, [], ◌∷◌, Text,
  ◌==◌, nat_eq, text_eq, ltb, leb, length, lookup, insert, delete, All, arith, Bool-cases, inl, inr,
}
use em_wall.NodePark.{
  NodeStatus, is_dead, ParkState, or_new, note_dead, wait_for, park, park_initial, park_max, Nodes,
  Slot, Round, alive_count, observe_dead, observe_member, observe_members, observe_slot, observe,
  parked, release, release_all, on_trial_again, is_over, retain, forget,
}

-- A member was never parked or has a park length of five minutes to an hour, and is parked for an
-- hour more at most.
pub record InTerm (now : ℕ) (s : ParkState) : Type 0 where
  pub length_min : s.park_for ≢ 0 → park_initial ≤ s.park_for
  pub length_max : s.park_for ≤ park_max
  pub until : s.parked_until ≤ now + park_max

abbrev pub AllInTerm : ℕ → Nodes → Type 0
AllInTerm now = All (λ x. InTerm now x.1)

note_dead-InTerm : (now : ℕ) (s : ParkState) → InTerm now s → InTerm now (note_dead s now)
note_dead-InTerm now s v =
    let a = v.length_min in
    let b = v.length_max in
    let c = v.until in
    record { length_min = ground arith; length_max = ground arith; until = ground arith }

park-InTerm : (now : ℕ) (s : ParkState) → InTerm now s → InTerm now (park s now)
park-InTerm now s v =
    let a = v.length_min in
    let b = v.length_max in
    record { length_min = ground arith; length_max = ground arith; until = ground arith }

delete-AllInTerm :
    (now : ℕ) (k : Text) (nodes : Nodes) → AllInTerm now nodes → AllInTerm now (delete k nodes)
unfolding delete
delete-AllInTerm now k [] h = tt
delete-AllInTerm now k ((j, s) ∷ nodes) h = elim (Bool-cases (j == k)) [
  | inl same ↦ rw (same, delete) (delete-AllInTerm now k nodes h.1)
  | inr other ↦ rw (other, delete) (h.0, delete-AllInTerm now k nodes h.1)
]

insert-AllInTerm :
    (now : ℕ) (k : Text) (s : ParkState) (nodes : Nodes)
    → InTerm now s
    → AllInTerm now nodes
    → AllInTerm now (insert k s nodes)
unfolding insert
insert-AllInTerm now k s nodes v h = (v, delete-AllInTerm now k nodes h)

found-InTerm :
    (now : ℕ) (k : Text) (nodes : Nodes)
    → AllInTerm now nodes
    → InTerm now (or_new (lookup k nodes))
unfolding lookup
found-InTerm now k [] h = record {
  length_min = λ e. absurd (e refl);
  length_max = omega arith;
  until = omega arith;
}
found-InTerm now k ((j, s) ∷ nodes) h = elim (Bool-cases (j == k)) [
  | inl same ↦ rw (same, lookup) h.0
  | inr other ↦ rw (other, lookup) (found-InTerm now k nodes h.1)
]

observe_dead-AllInTerm :
    (alive now : ℕ) (key : Text) (r : Round)
    → AllInTerm now r.nodes
    → AllInTerm now (observe_dead alive now key r).nodes
unfolding observe_dead
observe_dead-AllInTerm alive now key r h =
    let s = note_dead (or_new (lookup key r.nodes)) now in
    let v = note_dead-InTerm now (or_new (lookup key r.nodes)) (found-InTerm now key r.nodes h) in
    elim (Bool-cases (ltb now (s.dead_since + wait_for s) || alive == 0 || leb r.remaining 1)) [
      | inl stay ↦ rw (stay, observe_dead) (insert-AllInTerm now key s r.nodes v h)
      | inr go ↦
          rw (go, observe_dead)
            (insert-AllInTerm now key (park s now) r.nodes (park-InTerm now s v) h)
    ]

observe_member-AllInTerm :
    (alive now : ℕ) (st : Option NodeStatus) (key : Text) (r : Round)
    → AllInTerm now r.nodes
    → AllInTerm now (observe_member alive now st key r).nodes
unfolding observe_member
observe_member-AllInTerm alive now none key r h = h
observe_member-AllInTerm alive now (some st) key r h = elim (Bool-cases st.alive) [
  | inl up ↦ rw (up, observe_member) (delete-AllInTerm now key r.nodes h)
  | inr down ↦ elim (Bool-cases (is_dead st)) [
    | inl dead ↦
        let same : observe_member alive now (some st) key r ≡ observe_dead alive now key r =
          ground arith in
        subst (λ q. AllInTerm now q.nodes) (sym same) (observe_dead-AllInTerm alive now key r h)
    | inr unknown ↦
        let same : observe_member alive now (some st) key r ≡ r = ground arith in
        subst (λ q. AllInTerm now q.nodes) (sym same) h
  ]
]

observe_members-AllInTerm :
    (status : ℕ → Text → Option NodeStatus) (i alive now : ℕ) (keys : List Text) (r : Round)
    → AllInTerm now r.nodes
    → AllInTerm now (observe_members status i alive now keys r).nodes
unfolding observe_members
observe_members-AllInTerm status i alive now [] r h = h
observe_members-AllInTerm status i alive now (k ∷ keys) r h =
    observe_members-AllInTerm status i alive now keys (observe_member alive now (status i k) k r)
      (observe_member-AllInTerm alive now (status i k) k r h)

observe_slot-AllInTerm :
    (status : ℕ → Text → Option NodeStatus) (now : ℕ) (sl : Slot) (nodes : Nodes)
    → AllInTerm now nodes
    → AllInTerm now (observe_slot status now sl nodes).0
unfolding observe_slot
observe_slot-AllInTerm status now sl nodes h =
    let start : Round = record { nodes = nodes; remaining = length sl.members; events = [] } in
    let v =
      observe_members-AllInTerm status sl.index (alive_count status sl.index sl.members) now
        sl.members start h in
    elim (Bool-cases sl.never_parks) [
      | inl never ↦ rw (never, observe_slot) h
      | inr may ↦ rw (may, observe_slot) v
    ]

pub observe-AllInTerm :
    (status : ℕ → Text → Option NodeStatus) (now : ℕ) (slots : List Slot) (nodes : Nodes)
    → AllInTerm now nodes
    → AllInTerm now (observe status now slots nodes).0
unfolding observe
observe-AllInTerm status now [] nodes h = h
observe-AllInTerm status now (sl ∷ slots) nodes h =
    observe-AllInTerm status now slots (observe_slot status now sl nodes).0
      (observe_slot-AllInTerm status now sl nodes h)

on_trial_again-InTerm : (now : ℕ) (s : ParkState) → InTerm now s → InTerm now (on_trial_again s)
on_trial_again-InTerm now s v = record {
  length_min = v.length_min;
  length_max = v.length_max;
  until = omega arith;
}

release-AllInTerm :
    (nodes : Nodes) (now : ℕ) → AllInTerm now nodes → AllInTerm now (release nodes now).0
unfolding release
release-AllInTerm [] now h = tt
release-AllInTerm ((k, s) ∷ nodes) now h =
    let ih = release-AllInTerm nodes now h.1 in
    elim (Bool-cases (is_over now s)) [
      | inl over ↦ rw (over, release) (on_trial_again-InTerm now s h.0, ih)
      | inr not_yet ↦ rw (not_yet, release) (h.0, ih)
    ]

release_all-AllInTerm :
    (nodes : Nodes) (now : ℕ) → AllInTerm now nodes → AllInTerm now (release_all nodes).0
unfolding release_all
release_all-AllInTerm [] now h = tt
release_all-AllInTerm ((k, s) ∷ nodes) now h =
    let ih = release_all-AllInTerm nodes now h.1 in
    elim (Bool-cases (not (s.parked_until == 0))) [
      | inl held ↦ rw (held, release_all) (on_trial_again-InTerm now s h.0, ih)
      | inr not_held ↦ rw (not_held, release_all) (h.0, ih)
    ]

retain-AllInTerm :
    (keys : Text → Bool) (nodes : Nodes) (now : ℕ)
    → AllInTerm now nodes
    → AllInTerm now (retain keys nodes)
unfolding retain
retain-AllInTerm keys [] now h = tt
retain-AllInTerm keys ((k, s) ∷ nodes) now h = elim (Bool-cases (keys k)) [
  | inl kept ↦ rw (kept, retain) (h.0, retain-AllInTerm keys nodes now h.1)
  | inr gone ↦ rw (gone, retain) (retain-AllInTerm keys nodes now h.1)
]

forget-AllInTerm :
    (keys : List Text) (nodes : Nodes) (now : ℕ)
    → AllInTerm now nodes
    → AllInTerm now (forget keys nodes)
unfolding forget
forget-AllInTerm [] nodes now h = h
forget-AllInTerm (k ∷ keys) nodes now h =
    forget-AllInTerm keys (delete k nodes) now (delete-AllInTerm now k nodes h)

-- What the supervisor calls.
pub data Event : Type 0 where
  polled : (ℕ → Text → Option NodeStatus) → List Slot → Event
  released all_released : Event
  retained : (Text → Bool) → Event
  forgotten : List Text → Event

unfoldable pub step : Nodes → Event → ℕ → Nodes
unfolding observe release release_all retain forget
step nodes (polled status slots) now = (observe status now slots nodes).0
step nodes released now = (release nodes now).0
step nodes all_released now = (release_all nodes).0
step nodes (retained keys) now = retain keys nodes
step nodes (forgotten keys) now = forget keys nodes

-- The park states that a run reaches, with the time of the last event.
pub data Reachable : Nodes → ℕ → Type 0 where
  start : Reachable [] 0
  event :
      {nodes : Nodes} {now : ℕ} (e : Event) (t : ℕ)
      → now ≤ t
      → Reachable nodes now
      → Reachable (step nodes e t) t

step-AllInTerm :
    (nodes : Nodes) (e : Event) (now : ℕ) → AllInTerm now nodes → AllInTerm now (step nodes e now)
unfolding step
step-AllInTerm nodes (polled status slots) now h = observe-AllInTerm status now slots nodes h
step-AllInTerm nodes released now h = release-AllInTerm nodes now h
step-AllInTerm nodes all_released now h = release_all-AllInTerm nodes now h
step-AllInTerm nodes (retained keys) now h = retain-AllInTerm keys nodes now h
step-AllInTerm nodes (forgotten keys) now h = forget-AllInTerm keys nodes now h

later-AllInTerm : (nodes : Nodes) (now t : ℕ) → now ≤ t → AllInTerm now nodes → AllInTerm t nodes
later-AllInTerm [] now t le h = tt
later-AllInTerm ((k, s) ∷ nodes) now t le h =
    let u = h.0.until in
    (
      record { length_min = h.0.length_min; length_max = h.0.length_max; until = omega arith },
      later-AllInTerm nodes now t le h.1,
    )

-- In every run, whatever the health of the members and whatever is released, kept or forgotten, the
-- park length of a member is five minutes to an hour once it was parked, and it is parked for at most
-- an hour past the last event.
pub Reachable-AllInTerm : (nodes : Nodes) (now : ℕ) → Reachable nodes now → AllInTerm now nodes
Reachable-AllInTerm _ _ start = tt
Reachable-AllInTerm _ _ (event {nodes} {now} e t le r) =
    step-AllInTerm nodes e t (later-AllInTerm nodes now t le (Reachable-AllInTerm nodes now r))

none_parked :
    (nodes : Nodes) (now t : ℕ) → AllInTerm now nodes → now + park_max ≤ t → parked nodes t ≡ []
unfolding parked
none_parked [] now t h le = refl
none_parked ((k, s) ∷ nodes) now t h le =
    let u = h.0.until in ground (arith, none_parked nodes now t h.1 le)

-- In every run, an hour after its last event no member is parked.
pub park_ends :
    (nodes : Nodes) (now : ℕ)
    → Reachable nodes now
    → (t : ℕ) → now + park_max ≤ t
    → parked nodes t ≡ []
park_ends nodes now r t le = none_parked nodes now t (Reachable-AllInTerm nodes now r) le
