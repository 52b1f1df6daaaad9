-- ===== src/Strategy/Auto/Rounds.antt =====
-- What one round makes of an automatic pool.
use em_wall.Prelude.{
  ℕ, ◌≡◌, ◌∙◌, refl, sym, ap, subst, Bool, true, false, ◌&&◌, ◌||◌, Option, none, some, List, [],
  ◌∷◌, Text, ◌==◌, text_eq, text_beq_iff, lookup, insert, lookup-insert, is_listed, if◌then◌else◌,
  arith, Bool-cases, Option-cases, inl, inr,
}
use em_wall.Text.{insert_text, sort_texts}
use em_wall.Strategy.Auto.{
  PoolTimeline, AutoState, AutoPools, or_started, judge, keep_auto, keys_of, window_at,
  evaluate_keys, evaluate,
}

-- Judging a pool twice in one round is judging it once.
judge-judge :
    (p : PoolTimeline) (now : ℕ) (s : AutoState)
    → (judge p now (judge p now s).0).0 ≡ (judge p now s).0
unfolding judge
judge-judge p now s = ground arith

is_listed-insert_text :
    (k s : Text) (ts : List Text) → is_listed k (insert_text s ts) ≡ (s == k || is_listed k ts)
unfolding insert_text
is_listed-insert_text k s [] = refl
is_listed-insert_text k s (t ∷ ts) = ground (arith, is_listed-insert_text k s ts)

is_listed-sort_texts : (k : Text) (ts : List Text) → is_listed k (sort_texts ts) ≡ is_listed k ts
unfolding sort_texts
is_listed-sort_texts k [] = refl
is_listed-sort_texts k (t ∷ ts) =
    is_listed-insert_text k t (sort_texts ts) ∙ (let ih = is_listed-sort_texts k ts in ground arith)

is_listed-keys_of :
    (k : Text) (windows : List (Text × PoolTimeline))
    → is_listed k (keys_of windows) ≡ (elim (lookup k windows) [ none ↦ false | some p ↦ true ])
unfolding lookup
is_listed-keys_of k [] = refl
is_listed-keys_of k ((j, p) ∷ windows) = ground (arith, is_listed-keys_of k windows)

lookup-keep_auto :
    (auto : Text → Bool) (k : Text) (pools : AutoPools)
    → lookup k (keep_auto auto pools) ≡ (if auto k then lookup k pools else none)
unfolding lookup keep_auto
lookup-keep_auto auto k [] = ground arith
lookup-keep_auto auto k ((j, s) ∷ pools) =
    let ih = lookup-keep_auto auto k pools in
    elim (Bool-cases (j == k)) [
      | inl same ↦ let at = ap auto ((text_beq_iff j k).0 same) in ground arith
      | inr other ↦ ground arith
    ]

-- One round: the state of a pool that is judged.
abbrev pub judged : List (Text × PoolTimeline) → ℕ → Text → Option AutoState → AutoState
judged windows now k o = (judge (window_at windows k) now (or_started now o)).0

-- One step of the loop, on its key alone.
module _ (windows : List (Text × PoolTimeline)) (auto : Text → Bool) (now : ℕ) (j : Text)
    (keys : List Text) (pools : AutoPools) (k : Text) where
  evaluate_keys-auto :
      auto j ≡ true
      → lookup k (evaluate_keys windows auto now (j ∷ keys) pools).0
        ≡ lookup k
            (evaluate_keys windows auto now keys
              (insert j (judged windows now j (lookup j pools)) pools)).0
  unfolding evaluate_keys
  evaluate_keys-auto h = rw h refl

  evaluate_keys-skip :
      auto j ≡ false
      → lookup k (evaluate_keys windows auto now (j ∷ keys) pools).0
        ≡ lookup k (evaluate_keys windows auto now keys pools).0
  unfolding evaluate_keys
  evaluate_keys-skip h = rw h refl

lookup-evaluate_keys :
    (windows : List (Text × PoolTimeline)) (auto : Text → Bool) (now : ℕ) (keys : List Text)
    (pools : AutoPools) (k : Text)
    → lookup k (evaluate_keys windows auto now keys pools).0 ≡ (
        if is_listed k keys && auto k
        then some (judged windows now k (lookup k pools))
        else lookup k pools)
unfolding evaluate_keys
lookup-evaluate_keys windows auto now [] pools k = refl
lookup-evaluate_keys windows auto now (j ∷ keys) pools k =
    let s = judged windows now j (lookup j pools) in
    let skipped = lookup-evaluate_keys windows auto now keys pools k in
    let rest = lookup-evaluate_keys windows auto now keys (insert j s pools) k in
    let put = lookup-insert j k s pools in
    elim (Bool-cases (j == k)) [
      | inl same ↦
          let at_k : judged windows now k (lookup k pools) ≡ s =
            ap (λ i. judged windows now i (lookup i pools)) (sym ((text_beq_iff j k).0 same)) in
          let auto_k = ap auto ((text_beq_iff j k).0 same) in
          let once = judge-judge (window_at windows k) now (or_started now (lookup k pools)) in
          let again : judged windows now k (some s) ≡ s =
            subst (λ x. (judge (window_at windows k) now x).0 ≡ x) at_k once in
          let found : lookup k (insert j s pools) ≡ some s = ground arith in
          let put_back : lookup k (evaluate_keys windows auto now keys (insert j s pools)).0
              ≡ some s =
            rest
            ∙ subst
                (λ o.
                  (if is_listed k keys && auto k then some (judged windows now k o) else o)
                  ≡ some s)
                (sym found)
                (elim (Bool-cases (is_listed k keys && auto k)) [
                  | inl both ↦ rw both (ap some again)
                  | inr neither ↦ rw neither refl
                ]) in
          elim (Bool-cases (auto j)) [
            | inl is_auto ↦
                evaluate_keys-auto windows auto now j keys pools k is_auto
                ∙ put_back
                ∙ (let auto_k_on : auto k ≡ true = ground arith in
                    rw (same, auto_k_on) (ap some (sym at_k)))
            | inr not_auto ↦
                let auto_k_off : auto k ≡ false = ground arith in
                evaluate_keys-skip windows auto now j keys pools k not_auto ∙ skipped ∙ ground arith
          ]
      | inr other ↦
          let not_put : lookup k (insert j s pools) ≡ lookup k pools = ground arith in
          let kept : lookup k (evaluate_keys windows auto now keys (insert j s pools)).0 ≡ (
              if is_listed k keys && auto k
              then some (judged windows now k (lookup k pools))
              else lookup k pools) =
            subst
              (λ o.
                lookup k (evaluate_keys windows auto now keys (insert j s pools)).0
                ≡ (if is_listed k keys && auto k then some (judged windows now k o) else o))
              not_put rest in
          elim (Bool-cases (auto j)) [
            | inl is_auto ↦
                evaluate_keys-auto windows auto now j keys pools k is_auto ∙ kept ∙ rw other refl
            | inr not_auto ↦
                evaluate_keys-skip windows auto now j keys pools k not_auto
                ∙ skipped
                ∙ rw other refl
          ]
    ]

-- After a round, whatever the order of the pools: a pool that is not automatic is forgotten, one that
-- has a window is judged by it once, and every other automatic pool stays as it was.
pub evaluate_lem :
    (windows : List (Text × PoolTimeline)) (auto : Text → Bool) (now : ℕ) (pools : AutoPools)
    (k : Text)
    → lookup k (evaluate windows auto now pools).0 ≡ (
        if auto k
        then (elim (lookup k windows) [
          | none ↦ lookup k pools
          | some p ↦ some (judge p now (or_started now (lookup k pools))).0
        ])
        else none)
unfolding evaluate
evaluate_lem windows auto now pools k =
    let left = lookup-keep_auto auto k pools in
    let sorted = is_listed-sort_texts k (keys_of windows) ∙ is_listed-keys_of k windows in
    let whole =
      lookup-evaluate_keys windows auto now (sort_texts (keys_of windows)) (keep_auto auto pools)
        k in
    elim (Bool-cases (auto k)) [
      | inl on ↦
          let same : lookup k (keep_auto auto pools) ≡ lookup k pools = ground arith in
          whole ∙ rw (same, sorted, on) (window_found windows k now (lookup k pools))
      | inr off ↦ ground arith
    ]
  where
    window_found :
        (windows : List (Text × PoolTimeline)) (k : Text) (now : ℕ) (o : Option AutoState)
        → (if (elim (lookup k windows) [ none ↦ false | some p ↦ true ]) && true
            then some (judged windows now k o)
            else o)
          ≡ (elim (lookup k windows) [
            | none ↦ o
            | some p ↦ some (judge p now (or_started now o)).0
          ])
    window_found windows k now o = elim (Option-cases (lookup k windows)) [
      | inl e ↦ rw e refl
      | inr (p, e) ↦
          let at : window_at windows k ≡ p = rw (e, window_at) refl in
          rw e (ap (λ q. some (judge q now (or_started now o)).0) at)
    ]
