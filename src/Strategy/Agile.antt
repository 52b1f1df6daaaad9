-- ===== src/Strategy/Agile.antt =====
-- daemon/xray_strategy.go: the pick of an agile pool. The effective cost of a member, which the code
-- computes in floats from its last measurement and from whether it is carrying now, is a parameter,
-- raised by agileStickyFloor so that it is not below 0. `status` is the health of a slot's member,
-- which the code looks up under the tag of both.
pub mod Usable
pub mod Picked
use em_wall.Prelude.{
  ℕ, zero, suc, ◌+◌, ◌*◌, Bool, true, false, not, ◌&&◌, ◌||◌, Option, none, some, List, [], ◌∷◌,
  ◌++◌, Text, ◌==◌, text_eq, nat_eq, ltb, leb, length, lookup, insert, is_listed, if◌then◌else◌,
}
use em_wall.Text.{text_less, sort_texts}
use em_wall.NodePark.{NodeStatus}

abbrev pub agile_active_max : ℕ
agile_active_max = 4

-- agileAlive; the tolerance is a half
unfoldable pub agile_alive : NodeStatus → Bool
agile_alive st = st.alive && ltb 0 st.all && leb (2 * st.failed) st.all

abbrev pub is_answering : Option NodeStatus → Bool
is_answering none = false
is_answering (some st) = agile_alive st

-- what pickAgile and observe read of a slot: its members' keys
pub record AgileSlot : Type 0 where
  pub index : ℕ
  pub pool_key : Text
  pub agile : Bool
  pub members : List Text
  pub broken : List Text

pub record AgilePick : Type 0 where
  pub active : List Text
  pub spare : Text

abbrev pub no_pick : AgilePick
no_pick = record { active = []; spare = [] }

pub record Cand : Type 0 where
  pub key : Text
  pub cost : ℕ

unfoldable pub candidates :
    (Text → Bool → ℕ) → (ℕ → Text → Option NodeStatus) → ℕ → List Text → List Text → List Cand
unfolding agile_alive
candidates cost status i was [] = []
candidates cost status i was (k ∷ keys) =
    let rest = candidates cost status i was keys in
    if is_answering (status i k)
    then record { key = k; cost = cost k (is_listed k was) } ∷ rest
    else rest

unfoldable pub not_broken : List Text → List Cand → List Cand
not_broken broken [] = []
not_broken broken (c ∷ cs) =
    let rest = not_broken broken cs in if is_listed c.key broken then rest else c ∷ rest

-- the broken members go, unless nothing else is alive
unfoldable pub usable : List Text → List Cand → List Cand
unfolding not_broken
usable broken cs = elim (not_broken broken cs) [ [] ↦ cs | d ∷ ds ↦ d ∷ ds ]

abbrev pub cheaper : Cand → Cand → Bool
cheaper a b = if not (a.cost == b.cost) then ltb a.cost b.cost else text_less a.key b.key

-- sort.SliceStable
unfoldable pub insert_cand : Cand → List Cand → List Cand
unfolding text_less
insert_cand c [] = c ∷ []
insert_cand c (d ∷ ds) = let rest = insert_cand c ds in if cheaper d c then d ∷ rest else c ∷ d ∷ ds

unfoldable pub sort_cands : List Cand → List Cand
unfolding insert_cand
sort_cands [] = []
sort_cands (c ∷ cs) = insert_cand c (sort_cands cs)

-- the keys of the first n, and the one after them
abbrev pub first_keys : ℕ → List Cand → List Text
first_keys zero cs = []
first_keys (suc n) [] = []
first_keys (suc n) (c ∷ cs) = c.key ∷ first_keys n cs

abbrev pub key_after : ℕ → List Cand → Option Text
key_after n [] = none
key_after zero (c ∷ cs) = some c.key
key_after (suc n) (c ∷ cs) = key_after n cs

abbrev pub spare_of : Option Text → List Text → Text → Text → Text
spare_of (some k) active old cheapest = k
spare_of none active old cheapest = if is_listed old active then old else cheapest

unfoldable pub pick_sorted : List Cand → AgilePick → Option AgilePick
unfolding sort_texts
pick_sorted [] old = none
pick_sorted (c ∷ cs) old =
    let active = sort_texts (first_keys agile_active_max (c ∷ cs)) in
    some (record {
      active = active;
      spare = spare_of (key_after agile_active_max (c ∷ cs)) active old.spare c.key;
    })

-- pickAgile
unfoldable pub pick_agile :
    (Text → Bool → ℕ) → (ℕ → Text → Option NodeStatus) → AgileSlot → AgilePick → Option AgilePick
unfolding pick_sorted sort_cands usable candidates
pick_agile cost status sl old =
    pick_sorted
      (sort_cands (usable sl.broken (candidates cost status sl.index old.active sl.members))) old

pub record AgileChange : Type 0 where
  pub pool_key : Text
  pub from : AgilePick
  pub to : AgilePick
  pub dropped : List Text

abbrev pub Picks : Type 0
Picks = List (Text × AgilePick)

abbrev pub or_no_pick : Option AgilePick → AgilePick
or_no_pick none = no_pick
or_no_pick (some p) = p

abbrev pub same_texts : List Text → List Text → Bool
same_texts [] [] = true
same_texts (s ∷ ss) (t ∷ ts) = s == t && same_texts ss ts
same_texts _ _ = false

-- the members that carried and stopped answering
abbrev pub silent : (ℕ → Text → Option NodeStatus) → ℕ → List Text → List Text
silent status i [] = []
silent status i (k ∷ keys) =
    if is_answering (status i k) then silent status i keys else k ∷ silent status i keys

-- what observe does with one agile slot, from its next pick
unfoldable pub move_pick :
    (ℕ → Text → Option NodeStatus)
    → AgileSlot
    → Picks
    → AgilePick
    → Option AgilePick
    → Picks × List AgileChange
unfolding insert agile_alive
move_pick status sl picks old none = (picks, [])
move_pick status sl picks old (some next) =
    if same_texts next.active old.active && next.spare == old.spare then (picks, []) else (
      insert sl.pool_key next picks,
      record {
        pool_key = sl.pool_key;
        from = old;
        to = next;
        dropped = silent status sl.index old.active;
      }
          ∷ [],
    )

unfoldable pub observe_slots :
    (Text → Bool → ℕ)
    → (ℕ → Text → Option NodeStatus)
    → List AgileSlot
    → Picks
    → Picks × List AgileChange
unfolding lookup pick_agile move_pick
observe_slots cost status [] picks = (picks, [])
observe_slots cost status (sl ∷ slots) picks =
    let old = or_no_pick (lookup sl.pool_key picks) in
    let (moved, changes) = move_pick status sl picks old (pick_agile cost status sl old) in
    let (after, later) = observe_slots cost status slots moved in
    let (skipped, skipped_later) = observe_slots cost status slots picks in
    if sl.agile then (after, changes ++ later) else (skipped, skipped_later)

abbrev pub is_live : Text → List AgileSlot → Bool
is_live k [] = false
is_live k (sl ∷ slots) = (sl.agile && sl.pool_key == k) || is_live k slots

unfoldable pub keep_live : List AgileSlot → Picks → Picks
keep_live slots [] = []
keep_live slots ((k, p) ∷ picks) =
    let rest = keep_live slots picks in if is_live k slots then (k, p) ∷ rest else rest

-- observe
unfoldable pub observe :
    (Text → Bool → ℕ)
    → (ℕ → Text → Option NodeStatus)
    → List AgileSlot
    → Picks
    → Picks × List AgileChange
unfolding observe_slots keep_live
observe cost status slots picks =
    let (moved, changes) = observe_slots cost status slots picks in (keep_live slots moved, changes)
