-- ===== src/Latency/Rank/Working.antt =====
-- Which upstream the ranking puts first.
use mathlib.Core.List.{Memᴰ}
use mathlib.Core.List.Memᴰ
use em_wall.Prelude.{
  ℕ, suc, ◌+◌, ◌≤◌, ◌≡◌, Bool, true, false, ◌||◌, Option, none, some, List, [], ◌∷◌, Text, ◌==◌,
  nat_eq, text_eq, ltb, length, lookup, All, arith, Bool-cases, Option-cases, inl, inr,
}
use em_wall.Latency.{Rate, Sample, suspect}
use em_wall.Latency.Record.{Tracker}
use em_wall.Latency.Rank.{
  Ranked, ranked_sample, ranked, candidates, less, insert_ranked, sort_ranked, hold_incumbent,
  names_of, rank_from,
}
use em_wall.Latency.Rank.Order.{hold_incumbent-cases, name-ranked}

less-tier : (a b : Ranked) → less a b ≡ true → a.tier ≤ b.tier
unfolding less
less-tier a b h = elim (Bool-cases (a.tier == b.tier)) [
  | inl same ↦ ground arith
  | inr other ↦ ground arith
]

not-less-tier : (a b : Ranked) → less a b ≡ false → b.tier ≤ a.tier
unfolding less
not-less-tier a b h = elim (Bool-cases (a.tier == b.tier)) [
  | inl same ↦ ground arith
  | inr other ↦ ground arith
]

-- A property of all candidates does not depend on their order.
module _ (P : Ranked → Type 0) where
  insert_ranked-All : (r : Ranked) (rs : List Ranked) → P r → All P rs → All P (insert_ranked r rs)
  unfolding insert_ranked
  insert_ranked-All r [] p ps = (p, tt)
  insert_ranked-All r (q ∷ rs) p ps = elim (Bool-cases (less q r)) [
    | inl before ↦ rw (before, insert_ranked) (ps.0, insert_ranked-All r rs p ps.1)
    | inr after ↦ rw (after, insert_ranked) (p, ps)
  ]

  All-insert_ranked : (r : Ranked) (rs : List Ranked) → All P (insert_ranked r rs) → P r × All P rs
  unfolding insert_ranked
  All-insert_ranked r [] h = h
  All-insert_ranked r (q ∷ rs) h = elim (Bool-cases (less q r)) [
    | inl before ↦
        let g = rw (before, insert_ranked) at h in
        let (p, ps) = All-insert_ranked r rs g.1 in (p, (g.0, ps))
    | inr after ↦ rw (after, insert_ranked) at h
  ]

  sort_ranked-All : (rs : List Ranked) → All P rs → All P (sort_ranked rs)
  unfolding sort_ranked
  sort_ranked-All [] h = tt
  sort_ranked-All (r ∷ rs) h = insert_ranked-All r (sort_ranked rs) h.0 (sort_ranked-All rs h.1)

  All-sort_ranked : (rs : List Ranked) → All P (sort_ranked rs) → All P rs
  unfolding sort_ranked
  All-sort_ranked [] h = tt
  All-sort_ranked (r ∷ rs) h =
      let (p, ps) = All-insert_ranked r (sort_ranked rs) h in (p, All-sort_ranked rs ps)

All-weaken :
    (P Q : Ranked → Type 0) (rs : List Ranked) → ((r : Ranked) → P r → Q r) → All P rs → All Q rs
All-weaken P Q [] f h = tt
All-weaken P Q (r ∷ rs) f h = (f r h.0, All-weaken P Q rs f h.1)

-- Each candidate's tier is at most that of those after it.
abbrev pub Ascending : List Ranked → Type 0
Ascending [] = Unit
Ascending (r ∷ rs) = All (λ q. r.tier ≤ q.tier) rs × Ascending rs

insert_ranked-Ascending :
    (r : Ranked) (rs : List Ranked) → Ascending rs → Ascending (insert_ranked r rs)
unfolding insert_ranked
insert_ranked-Ascending r [] h = (tt, tt)
insert_ranked-Ascending r (q ∷ rs) h = elim (Bool-cases (less q r)) [
  | inl before ↦
      rw (before, insert_ranked)
        (
          insert_ranked-All (λ z. q.tier ≤ z.tier) r rs (less-tier q r before) h.0,
          insert_ranked-Ascending r rs h.1,
        )
  | inr after ↦
      let le = not-less-tier q r after in
      rw (after, insert_ranked)
        (
          (
            le,
            All-weaken (λ z. q.tier ≤ z.tier) (λ z. r.tier ≤ z.tier) rs (λ z l. omega arith) h.0,
          ),
          h,
        )
]

sort_ranked-Ascending : (rs : List Ranked) → Ascending (sort_ranked rs)
unfolding sort_ranked
sort_ranked-Ascending [] = tt
sort_ranked-Ascending (r ∷ rs) =
    insert_ranked-Ascending r (sort_ranked rs) (sort_ranked-Ascending rs)

-- The breaker of the name is open, or the name is in an outage.
abbrev failing_sample : Option Sample → Bool
failing_sample none = false
failing_sample (some s) = s.is_open || suspect s

abbrev pub failing : Tracker → Text → Bool
failing t n = failing_sample (lookup n t.samples)

module _ (cost : Sample → Rate → ℕ → ℕ) (t : Tracker) (now : ℕ) where
  -- The tier of a candidate says whether its name is failing.
  abbrev Told : Ranked → Type 0
  Told r = ltb 2 r.tier ≡ failing t r.name

  ranked-Told : (n : Text) (i : ℕ) → Told (ranked cost t n i now)
  unfolding ranked ranked_sample
  ranked-Told n i = elim (Option-cases (lookup n t.samples)) [
    | inl e ↦ ground arith
    | inr (s, e) ↦ ground arith
  ]

  candidates-Told : (names : List Text) (i : ℕ) → All Told (candidates cost t names i now)
  unfolding candidates
  candidates-Told [] i = tt
  candidates-Told (n ∷ names) i = (ranked-Told n i, candidates-Told names (i + 1))

  -- Where every candidate is failing, so is every name.
  failing_of_tiers :
      (names : List Text) (i : ℕ)
      → All (λ r. 3 ≤ r.tier) (candidates cost t names i now)
      → (n : Text) → Memᴰ n names
      → failing t n ≡ true
  unfolding candidates
  failing_of_tiers [] i h n m = absurd (Memᴰ.not-nil m)
  failing_of_tiers (k ∷ names) i h n (Memᴰ.head e) =
      let told = ranked-Told k i in
      let same : failing t (ranked cost t k i now).name ≡ failing t n =
        cc (name-ranked cost t now k i, e) in
      let three = h.0 in ground arith
  failing_of_tiers (k ∷ names) i h n (Memᴰ.tail m) = failing_of_tiers names (i + 1) h.1 n m

  head_working :
      (sorted : List Ranked) (inc first : Text) (rest : List Text)
      → Ascending sorted
      → All Told sorted
      → ¬ All (λ r. 3 ≤ r.tier) sorted
      → names_of (hold_incumbent inc sorted) ≡ first ∷ rest
      → failing t first ≡ false
  unfolding hold_incumbent
  head_working [] inc first rest up told some_working e = cc
  head_working (leader ∷ rs) inc first rest up told some_working e =
      elim (Bool-cases (ltb 2 leader.tier)) [
        | inl high ↦
            let three : 3 ≤ leader.tier = ground arith in
            absurd (
              some_working (
                three,
                All-weaken (λ q. leader.tier ≤ q.tier) (λ q. 3 ≤ q.tier) rs (λ r l. omega arith)
                    up.0,
              ))
        | inr low ↦ elim (hold_incumbent-cases Told inc leader rs) [
          | inl stays ↦
              let is_first : leader.name ∷ names_of rs ≡ first ∷ rest = cc (stays, e) in
              let same : failing t leader.name ≡ failing t first = cc is_first in
              let known = told.0 in ground arith
          | inr (q, others, moved, taken) ↦
              let is_first : q.name ∷ names_of others ≡ first ∷ rest = cc (moved, e) in
              let same : failing t q.name ≡ failing t first = cc is_first in
              let known = (taken.kept told).0 in let le = taken.tier_max in ground arith
        ]
      ]

  -- For every cost, incumbent and time: where some of the names is neither in an outage nor has an
  -- open breaker, the name that the ranking puts first is neither, the incumbent included.
  pub working_first :
      (names : List Text) (incumbent first : Text) (rest : List Text) (n : Text)
      → rank_from cost t names incumbent now ≡ first ∷ rest
      → Memᴰ n names
      → failing t n ≡ false
      → failing t first ≡ false
  unfolding rank_from
  working_first [] incumbent first rest n e m works = cc
  working_first (k ∷ []) incumbent first rest n e (Memᴰ.head same) works =
      let is_first : k ∷ [] ≡ first ∷ rest = e in cc (is_first, same, works)
  working_first (k ∷ []) incumbent first rest n e (Memᴰ.tail m) works = absurd (Memᴰ.not-nil m)
  working_first (k ∷ j ∷ names) incumbent first rest n e m works =
      let whole = candidates cost t (k ∷ j ∷ names) 0 now in
      let many : ltb (suc (suc (length names))) 2 ≡ false = ground arith in
      head_working (sort_ranked whole) incumbent first rest (sort_ranked-Ascending whole)
        (sort_ranked-All Told whole (candidates-Told (k ∷ j ∷ names) 0))
        (λ all.
          let failed =
            failing_of_tiers (k ∷ j ∷ names) 0 (All-sort_ranked (λ r. 3 ≤ r.tier) whole all) n m in
          ground arith)
        (rw (many, rank_from) at e)
