-- ===== src/Strategy/Agile/Picked.antt =====
-- Which members an agile pool picks.
use em_wall.Prelude.{
  ℕ, suc, ◌≤◌, ◌≡◌, ◌≢◌, ◌∙◌, min, refl, sym, subst, Bool, false, Option, none, some, List, [], ◌∷◌,
  Text, ◌==◌, text_eq, nat_eq, length, is_listed, if◌then◌else◌, All, arith,
}
use em_wall.Text.{sort_texts}
use em_wall.NodePark.{NodeStatus}
use em_wall.Strategy.Agile.{
  agile_active_max, AgileSlot, AgilePick, Cand, candidates, not_broken, usable, sort_cands,
  first_keys, pick_sorted, pick_agile,
}
use em_wall.Strategy.Agile.Usable.{
  answering, working, MayCarry, length-sort_cands, length-sort_texts, length-first_keys,
  sort_cands-All, sort_texts-All, first_keys-All, spare_of-All, length-candidates,
  length-not_broken, Answers, candidates-Answers, All-map, usable-All, length-usable,
}

pick_sorted-some :
    (P : Text → Type 0) (cs : List Cand) (old out : AgilePick)
    → All (λ d. P d.key) cs
    → pick_sorted cs old ≡ some out
    → (length out.active ≡ min agile_active_max (length cs)) × All P out.active × P out.spare
unfolding pick_sorted
pick_sorted-some P [] old out ps e = cc
pick_sorted-some P (c ∷ cs) old out ps e =
    let active = sort_texts (first_keys agile_active_max (c ∷ cs)) in
    let carrying =
      sort_texts-All P (first_keys agile_active_max (c ∷ cs))
        (first_keys-All P agile_active_max (c ∷ cs) ps) in
    subst
      (λ o. (length o.active ≡ min agile_active_max (suc (length cs))) × All P o.active × P o.spare)
      (some_pick e)
      (
        length-sort_texts (first_keys agile_active_max (c ∷ cs))
            ∙ length-first_keys agile_active_max (c ∷ cs),
        carrying,
        spare_of-All P agile_active_max (c ∷ cs) active old.spare c.key ps carrying ps.0,
      )
  where
    some_pick : {a b : AgilePick} → some a ≡ some b → a ≡ b
    some_pick e = cc e

pick_sorted-none :
    (cs : List Cand) (old : AgilePick)
    → (pick_sorted cs old ≡ none → length cs ≡ 0) × (length cs ≡ 0 → pick_sorted cs old ≡ none)
unfolding pick_sorted
pick_sorted-none [] old = (λ e. refl, λ e. refl)
pick_sorted-none (c ∷ cs) old = (λ e. cc, λ e. ground arith)

working-le :
    (status : ℕ → Text → Option NodeStatus) (i : ℕ) (broken keys : List Text)
    → working status i broken keys ≤ answering status i keys
working-le status i broken [] = omega arith
working-le status i broken (k ∷ keys) = ground (arith, working-le status i broken keys)

-- How many members may be picked.
abbrev pub pickable : (ℕ → Text → Option NodeStatus) → AgileSlot → ℕ
pickable status sl =
    if working status sl.index sl.broken sl.members == 0
    then answering status sl.index sl.members
    else working status sl.index sl.broken sl.members

-- An agile pool gets no new pick exactly when none of its members answers. A new pick is of four
-- members, or of as many as may be picked where these are fewer, and it and its spare are members
-- that answer, none of them a broken one unless every member that answers is broken; whatever the
-- effective costs are.
pub pick_agile_lem :
    (cost : Text → Bool → ℕ) (status : ℕ → Text → Option NodeStatus) (sl : AgileSlot)
    (old : AgilePick)
    → ((pick_agile cost status sl old ≡ none → answering status sl.index sl.members ≡ 0)
        × (answering status sl.index sl.members ≡ 0 → pick_agile cost status sl old ≡ none))
      × ((out : AgilePick)
          → pick_agile cost status sl old ≡ some out
          → (length out.active ≡ min agile_active_max (pickable status sl))
            × All (MayCarry status sl) out.active
            × MayCarry status sl out.spare)
unfolding pick_agile
pick_agile_lem cost status sl old =
    let cs = candidates cost status sl.index old.active sl.members in
    let left = usable sl.broken cs in
    let count = length-candidates cost status sl.index old.active sl.members in
    let count_working = length-not_broken cost status sl.index old.active sl.broken sl.members in
    let count_left =
      length-sort_cands left ∙ length-usable sl.broken cs (not_broken sl.broken cs) refl in
    let fewer = working-le status sl.index sl.broken sl.members in
    let nothing = pick_sorted-none (sort_cands left) old in
    let left_is : length (sort_cands left) ≡ pickable status sl =
      rw (count, count_working) at count_left in
    let carry = sort_cands-All (MayCarry status sl) left (
      All-map
        (λ k.
          Answers cost status sl.index old.active sl.members k
          × (length (not_broken sl.broken cs) ≢ 0 → is_listed k sl.broken ≡ false))
        (MayCarry status sl) left
        (λ k p. (p.0.0, p.0.1, λ z. p.1 (subst (λ n. n ≢ 0) (sym count_working) z)))
        (usable-All (Answers cost status sl.index old.active sl.members) sl.broken cs
          (not_broken sl.broken cs) refl
          (candidates-Answers cost status sl.index old.active sl.members))) in
    (
      (λ e. let z = nothing.0 e in ground arith, λ z. nothing.1 (ground arith)),
      λ out e.
          subst
            (λ n.
              (length out.active ≡ min agile_active_max n)
              × All (MayCarry status sl) out.active
              × MayCarry status sl out.spare)
            left_is (pick_sorted-some (MayCarry status sl) (sort_cands left) old out carry e),
    )
