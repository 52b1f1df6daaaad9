-- ===== src/Latency/Rank.antt =====
-- core/netprobe/latency.go: RankFrom. The effective cost of a healthy upstream, which the code
-- computes in floats, is a parameter, the latency to be compared in whole nanoseconds.
pub mod Order
pub mod Working
use em_wall.Prelude.{
  ℕ, zero, suc, ◌+◌, ◌-◌, ◌*◌, Bool, true, false, not, ◌&&◌, ◌||◌, Option, none, some, List, [],
  ◌∷◌, ◌++◌, Text, ◌==◌, nat_eq, text_eq, ltb, leb, length, lookup, map, if◌then◌else◌,
}
use em_wall.Latency.{Rate, Sample, rate_less, suspect, on_probation, failure_rate}
use em_wall.Latency.Record.{Tracker}

abbrev pub hysteresis_floor : ℕ
hysteresis_floor = 40000000

-- rankedName; the tiers are 0 healthy, 1 on probation, 2 unknown, 3 suspect, 4 dead
pub record Ranked : Type 0 where
  pub name : Text
  pub idx : ℕ
  pub tier : ℕ
  pub rtt : ℕ
  pub rate : Rate
  pub probation : Bool

abbrev pub no_rate : Rate
no_rate = record { bad = 0; total = 1 }

-- the candidate of a name that has a sample
unfoldable pub ranked_sample : (Sample → Rate → ℕ → ℕ) → ℕ → Text → ℕ → Sample → ℕ → Ranked
unfolding failure_rate
ranked_sample cost ttl n i s now =
    let fresh = leb now (s.at + ttl) in
    let rate = failure_rate s.window in
    let p = on_probation s now in
    if s.is_open
    then record { name = n; idx = i; tier = 4; rtt = s.rtt; rate = rate; probation = p }
    else if suspect s
    then record { name = n; idx = i; tier = 3; rtt = s.rtt; rate = rate; probation = p }
    else if fresh && s.ok && p
    then record {
      name = n;
      idx = i;
      tier = 1;
      rtt = cost s rate now;
      rate = no_rate;
      probation = p;
    }
    else if fresh && s.ok
    then record {
      name = n;
      idx = i;
      tier = 0;
      rtt = cost s rate now;
      rate = no_rate;
      probation = p;
    }
    else record { name = n; idx = i; tier = 2; rtt = 0; rate = no_rate; probation = p }

unfoldable pub ranked : (Sample → Rate → ℕ → ℕ) → Tracker → Text → ℕ → ℕ → Ranked
unfolding lookup ranked_sample
ranked cost t n i now = elim (lookup n t.samples) [
  | none ↦ record { name = n; idx = i; tier = 2; rtt = 0; rate = no_rate; probation = false }
  | some s ↦ ranked_sample cost t.ttl n i s now
]

unfoldable pub candidates : (Sample → Rate → ℕ → ℕ) → Tracker → List Text → ℕ → ℕ → List Ranked
unfolding ranked
candidates cost t [] i now = []
candidates cost t (n ∷ names) i now = ranked cost t n i now ∷ candidates cost t names (i + 1) now

-- the order of the tiers of healthy names, by cost
abbrev pub healthy_less : Ranked → Ranked → Bool
healthy_less a b = if not (a.rtt == b.rtt) then ltb a.rtt b.rtt else ltb a.idx b.idx

-- and of the suspect and dead ones, by what failed least
abbrev pub failing_less : Ranked → Ranked → Bool
failing_less a b =
    if rate_less a.rate b.rate || rate_less b.rate a.rate
    then rate_less a.rate b.rate
    else if (a.rtt == 0 && not (b.rtt == 0)) || (not (a.rtt == 0) && b.rtt == 0)
    then b.rtt == 0
    else healthy_less a b

-- the `less` of the sort
unfoldable pub less : Ranked → Ranked → Bool
less a b =
    if not (a.tier == b.tier)
    then ltb a.tier b.tier
    else if leb a.tier 1
    then healthy_less a b
    else if leb 3 a.tier
    then failing_less a b
    else ltb a.idx b.idx

-- sort.SliceStable
pub insert_ranked : Ranked → List Ranked → List Ranked
unfolding less
insert_ranked r [] = r ∷ []
insert_ranked r (q ∷ rs) =
    let rest = insert_ranked r rs in if less q r then q ∷ rest else r ∷ q ∷ rs

pub sort_ranked : List Ranked → List Ranked
unfolding insert_ranked
sort_ranked [] = []
sort_ranked (r ∷ rs) = insert_ranked r (sort_ranked rs)

-- beatsByMargin; the fraction is a quarter. A gain below 0 is below the floor.
unfoldable pub beats_by_margin : Ranked → Ranked → Bool
beats_by_margin challenger incumbent =
    if not (challenger.tier == incumbent.tier)
    then ltb challenger.tier incumbent.tier
    else leb hysteresis_floor (incumbent.rtt - challenger.rtt)
      && leb incumbent.rtt (4 * (incumbent.rtt - challenger.rtt))

-- the first candidate that is the incumbent and may be held, and the others in their order
unfoldable pub take_incumbent : Text → List Ranked → Option (Ranked × List Ranked)
take_incumbent incumbent [] = none
take_incumbent incumbent (r ∷ rs) =
    let later = take_incumbent incumbent rs in
    if not (r.name == incumbent) || ltb 2 r.tier
    then elim later [ none ↦ none | some (q, others) ↦ some (q, r ∷ others) ]
    else some (r, rs)

-- the hysteresis, over the sorted candidates
unfoldable pub hold_incumbent : Text → List Ranked → List Ranked
unfolding take_incumbent beats_by_margin
hold_incumbent incumbent [] = []
hold_incumbent incumbent (leader ∷ rs) =
    if incumbent == [] || leader.name == incumbent
    then leader ∷ rs
    else elim (take_incumbent incumbent (leader ∷ rs)) [
      | none ↦ leader ∷ rs
      | some (r, others) ↦
          if (r.tier == 2 && not r.probation) || not (beats_by_margin leader r)
          then r ∷ others
          else leader ∷ rs
    ]

abbrev pub names_of : List Ranked → List Text
names_of [] = []
names_of (r ∷ rs) = r.name ∷ names_of rs

unfoldable pub rank_from : (Sample → Rate → ℕ → ℕ) → Tracker → List Text → Text → ℕ → List Text
unfolding candidates sort_ranked hold_incumbent
rank_from cost t names incumbent now =
    if ltb (length names) 2
    then names
    else names_of (hold_incumbent incumbent (sort_ranked (candidates cost t names 0 now)))
