-- ===== src/Latency/Rank/Order.antt =====
-- The ranking is a rearrangement, and puts a working upstream first wherever there is one.
use mathlib.Core.List.{Perm}
use mathlib.Core.List.Perm
use em_wall.Prelude.{
  ℕ, ◌+◌, ◌≤◌, ◌≡◌, ◌⊎◌, refl, subst, not, ◌&&◌, ◌||◌, none, some, List, [], ◌∷◌, Text, ◌==◌,
  nat_eq, text_eq, ltb, length, All, arith, Bool-cases, inl, inr,
}
use em_wall.Latency.{Rate, Sample}
use em_wall.Latency.Record.{Tracker}
use em_wall.Latency.Rank.{
  Ranked, ranked_sample, ranked, candidates, less, insert_ranked, sort_ranked, take_incumbent,
  hold_incumbent, beats_by_margin, names_of, rank_from,
}

insert_ranked-perm :
    (r : Ranked) (rs : List Ranked) → Perm (names_of (insert_ranked r rs)) (r.name ∷ names_of rs)
unfolding insert_ranked
insert_ranked-perm r [] = Perm.rfl
insert_ranked-perm r (q ∷ rs) = elim (Bool-cases (less q r)) [
  | inl before ↦
      rw (before, insert_ranked)
        (Perm.trans (Perm.cons q.name (insert_ranked-perm r rs))
          (Perm.swap r.name q.name (names_of rs)))
  | inr after ↦ rw (after, insert_ranked) Perm.rfl
]

sort_ranked-perm : (rs : List Ranked) → Perm (names_of (sort_ranked rs)) (names_of rs)
unfolding sort_ranked
sort_ranked-perm [] = Perm.rfl
sort_ranked-perm (r ∷ rs) =
    Perm.trans (insert_ranked-perm r (sort_ranked rs)) (Perm.cons r.name (sort_ranked-perm rs))

-- What taking the incumbent out of the candidates gives, where it may be held.
pub record IsTaken (P : Ranked → Type 0) (rs : List Ranked) (q : Ranked) (others : List Ranked)
    : Type 0 where
  pub rearranged : Perm (q.name ∷ names_of others) (names_of rs)
  pub tier_max : q.tier ≤ 2
  pub kept : All P rs → P q × All P others

take_incumbent-cases :
    (P : Ranked → Type 0) (inc : Text) (rs : List Ranked)
    → (take_incumbent inc rs ≡ none)
      ⊎ ((q : Ranked) × (others : List Ranked) × (take_incumbent inc rs ≡ some (q, others))
          × IsTaken P rs q others)
unfolding take_incumbent
take_incumbent-cases P inc [] = inl refl
take_incumbent-cases P inc (r ∷ rs) =
    let later = take_incumbent-cases P inc rs in
    elim (Bool-cases (not (r.name == inc) || ltb 2 r.tier)) [
      | inl skip ↦ elim later [
        | inl n ↦ inl (rw (skip, n, take_incumbent))
        | inr (q, others, e, taken) ↦ inr (
          q,
          r ∷ others,
          rw (skip, e, take_incumbent),
          record {
            rearranged =
                Perm.trans (Perm.swap r.name q.name (names_of others))
                  (Perm.cons r.name taken.rearranged);
            tier_max = taken.tier_max;
            kept = λ h. let (p, ps) = taken.kept h.1 in (p, (h.0, ps));
          },
        )
      ]
      | inr found ↦ inr (
        r,
        rs,
        rw (found, take_incumbent),
        record { rearranged = Perm.rfl; tier_max = ground arith; kept = λ h. h },
      )
    ]

-- What holding the incumbent makes of the sorted candidates.
pub hold_incumbent-cases :
    (P : Ranked → Type 0) (inc : Text) (leader : Ranked) (rs : List Ranked)
    → (hold_incumbent inc (leader ∷ rs) ≡ leader ∷ rs)
      ⊎ ((q : Ranked) × (others : List Ranked) × (hold_incumbent inc (leader ∷ rs) ≡ q ∷ others)
          × IsTaken P (leader ∷ rs) q others)
unfolding hold_incumbent
hold_incumbent-cases P inc leader rs = elim (Bool-cases (inc == [] || leader.name == inc)) [
  | inl no_ ↦ inl (rw (no_, hold_incumbent))
  | inr held ↦ elim (take_incumbent-cases P inc (leader ∷ rs)) [
    | inl n ↦ inl (simp (held, n, hold_incumbent))
    | inr (q, others, e, taken) ↦
        elim (Bool-cases ((q.tier == 2 && not q.probation) || not (beats_by_margin leader q))) [
          | inl stay ↦ inr (q, others, simp (held, e, stay, hold_incumbent), taken)
          | inr move ↦ inl (simp (held, e, move, hold_incumbent))
        ]
  ]
]

hold_incumbent-perm :
    (inc : Text) (rs : List Ranked) → Perm (names_of (hold_incumbent inc rs)) (names_of rs)
unfolding hold_incumbent
hold_incumbent-perm inc [] = Perm.rfl
hold_incumbent-perm inc (leader ∷ rs) = elim (hold_incumbent-cases (λ r. Unit {0}) inc leader rs) [
  | inl e ↦ rw e Perm.rfl
  | inr (q, others, e, taken) ↦ rw e taken.rearranged
]

module _ (cost : Sample → Rate → ℕ → ℕ) (t : Tracker) (now : ℕ) where
  pub name-ranked : (n : Text) (i : ℕ) → (ranked cost t n i now).name ≡ n
  unfolding ranked ranked_sample
  name-ranked n i = ground arith

  names_of-candidates :
      (names : List Text) (i : ℕ) → names_of (candidates cost t names i now) ≡ names
  unfolding candidates
  names_of-candidates [] i = refl
  names_of-candidates (n ∷ names) i = cc (name-ranked n i, names_of-candidates names (i + 1))

  -- For every cost, incumbent and time, the ranking is a rearrangement of the names: no upstream is
  -- lost and none is listed more often than it was.
  pub rank_from-perm :
      (names : List Text) (incumbent : Text) → Perm (rank_from cost t names incumbent now) names
  unfolding rank_from
  rank_from-perm names incumbent = elim (Bool-cases (ltb (length names) 2)) [
    | inl few ↦ rw (few, rank_from) Perm.rfl
    | inr many ↦
        let sorted = sort_ranked (candidates cost t names 0 now) in
        rw (many, rank_from)
          (Perm.trans (hold_incumbent-perm incumbent sorted) (
            subst (λ ns. Perm (names_of sorted) ns) (names_of-candidates names 0)
              (sort_ranked-perm (candidates cost t names 0 now))))
  ]
