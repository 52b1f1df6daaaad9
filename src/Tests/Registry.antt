-- ===== src/Tests/Registry.antt =====
-- Spliced connections, their rates, the gate of dials and a table of countries.
use em_wall.Prelude.{◌<◌, ◌≡◌, true, some, List, [], ◌∷◌, codes, lookup, nat_eq, All, arith}
use em_wall.LiveConns.{LiveConns, new_live_conns, track, written, update, mark_stale, sweep}
use em_wall.LiveConns.Count.{IsCounted}
use em_wall.LiveConns.Sweep.{
  Reachable, start, later, tracks, writes, marks, Reachable-IsCounted, after_sweep, sweep_lem,
}
use em_wall.LiveConns.Rates.{RateSample, empty_window, add}
use em_wall.LiveConns.Rates.Ring.{IsRing, held, push, held-add}
use em_wall.DialGate.{Gate, new_dial_gate, acquire, release}
use em_wall.DialGate.Slots
use em_wall.DialGate.Slots.{IsGated, acquires, releases, Reachable-IsGated}
use em_wall.Geo.{Range, merge, country}
use em_wall.Geo.Merge.{covers, IsRange, IsSorted, covers-merge}
use em_wall.Geo.Country.{IsApart, owner, country_lem}

-- a connection that is written to at 5 and marked
abbrev opened : LiveConns
opened = track new_live_conns (codes "_xray_home") 0 1

abbrev waiting : LiveConns
waiting = update (written 10 5) opened 0

abbrev marked : LiveConns
marked = (mark_stale waiting (codes "_xray_home" ∷ [])).0

reached : Reachable marked
reached =
    later (later (later start (tracks (codes "_xray_home") 0 1)) (writes 0 10 5))
      (marks (codes "_xray_home" ∷ []))

Reachable-IsCounted_example : IsCounted marked
Reachable-IsCounted_example = Reachable-IsCounted reached

sweep_lem_example :
    lookup 0 (sweep marked 8000000005).0.conns ≡ after_sweep 8000000005 (lookup 0 marked.conns)
sweep_lem_example = sweep_lem 8000000005 0 reached

abbrev sample : RateSample
sample = record { at = 4000000000; up = 100; down = 2000 }

empty_IsRing : IsRing empty_window
empty_IsRing = record { next_max = omega arith; n_max = omega arith }

held-add_example :
    IsRing (add empty_window sample)
    × (held (add empty_window sample) ≡ push (held empty_window) sample)
held-add_example = held-add empty_window sample empty_IsRing

-- one of two slots taken, and given back twice
abbrev taken : Gate
taken = (acquire (new_dial_gate 2) true).0

abbrev given_back : Gate
given_back = release (release taken (some 0)) (some 0)

one_taken : 0 < taken.fresh
unfolding acquire
one_taken = omega arith

one_still : 0 < (release taken (some 0)).fresh
unfolding acquire release
one_still = omega arith

gate_reached : Slots.Reachable 2 given_back
gate_reached =
    Slots.later
      (Slots.later (Slots.later Slots.start (acquires true)) (releases (some 0) one_taken))
      (releases (some 0) one_still)

Reachable-IsGated_example : IsGated given_back
Reachable-IsGated_example = Reachable-IsGated gate_reached

-- three ranges of one country, two of them next to each other, the last up to the highest address
abbrev ranges : List Range
ranges =
    record { lo = 16; hi = 31; cc = 0 }
    ∷ record { lo = 32; hi = 47; cc = 0 }
    ∷ record { lo = 4294967040; hi = 4294967295; cc = 0 }
    ∷ []

are_ranges : All (IsRange 32) ranges
are_ranges =
    ((omega arith, omega arith), ((omega arith, omega arith), ((omega arith, omega arith), tt)))

ranges-IsSorted : IsSorted ranges
ranges-IsSorted = (omega arith, (omega arith, tt))

covers-merge_example : covers (merge 32 ranges) 40 0 ≡ covers ranges 40 0
covers-merge_example = covers-merge 32 ranges 40 0 are_ranges ranges-IsSorted

ranges-IsApart : IsApart ranges
ranges-IsApart = (omega arith, omega arith, (omega arith, omega arith, omega arith))

country_lem_example : country ranges 40 ≡ owner ranges 40
country_lem_example = country_lem ranges 40 ranges-IsApart
