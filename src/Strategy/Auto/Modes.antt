-- ===== src/Strategy/Auto/Modes.antt =====
-- The modes of automatic pools.
use em_wall.Prelude.{
  ℕ, ◌+◌, ◌≤◌, ◌≡◌, ◌∙◌, refl, sym, ap, subst, Bool, true, false, Option, none, some, List, [],
  Text, text_eq, lookup, arith, Bool-cases, Option-cases, ◌⊎◌, inl, inr,
}
use em_wall.Strategy.{auto_calm}
use em_wall.Strategy.Auto.{
  PoolTimeline, flapping, AutoState, AutoPools, or_started, judge, window_at, evaluate,
}
use em_wall.Strategy.Auto.Rounds.{evaluate_lem}

-- A run of rounds, with the time of the last one.
pub data Reachable : AutoPools → ℕ → Type 0 where
  start : Reachable [] 0
  round :
      {pools : AutoPools} {now : ℕ} (windows : List (Text × PoolTimeline)) (auto : Text → Bool)
      (t : ℕ)
      → now ≤ t
      → Reachable pools now
      → Reachable (evaluate windows auto t pools).0 t

-- A mode began in the past, and an agile pool was flapping when it began or later.
abbrev pub IsTimed : ℕ → Option AutoState → Type 0
IsTimed now none = Unit
IsTimed now (some s) = (s.since ≤ now) × (s.agile ≡ true → s.since ≤ s.last_flappy)

judge-IsTimed :
    (p : PoolTimeline) (now t : ℕ) (o : Option AutoState)
    → now ≤ t
    → IsTimed now o
    → IsTimed t (some (judge p t (or_started t o)).0)
unfolding judge
judge-IsTimed p now t none le h = (ground arith, ground arith)
judge-IsTimed p now t (some s) le h = let a = h.0 in let b = h.1 in (ground arith, ground arith)

IsTimed-later : (now t : ℕ) (o : Option AutoState) → now ≤ t → IsTimed now o → IsTimed t o
IsTimed-later now t none le h = tt
IsTimed-later now t (some s) le h = let a = h.0 in (omega arith, h.1)

abbrev pub EveryTimed : ℕ → AutoPools → Type 0
EveryTimed now pools = (k : Text) → IsTimed now (lookup k pools)

evaluate-EveryTimed :
    (windows : List (Text × PoolTimeline)) (auto : Text → Bool) (now t : ℕ) (pools : AutoPools)
    → now ≤ t
    → EveryTimed now pools
    → EveryTimed t (evaluate windows auto t pools).0
evaluate-EveryTimed windows auto now t pools le h k =
    subst (IsTimed t) (sym (evaluate_lem windows auto t pools k)) (elim (Bool-cases (auto k)) [
      | inl on ↦ rw on (elim (Option-cases (lookup k windows)) [
        | inl e ↦ rw e (IsTimed-later now t (lookup k pools) le (h k))
        | inr (p, e) ↦ rw e (judge-IsTimed p now t (lookup k pools) le (h k))
      ])
      | inr off ↦ rw off tt
    ])

Reachable-EveryTimed : (pools : AutoPools) (now : ℕ) → Reachable pools now → EveryTimed now pools
unfolding lookup
Reachable-EveryTimed _ _ start k = tt
Reachable-EveryTimed _ _ (round {pools} {now} windows auto t le r) k =
    evaluate-EveryTimed windows auto now t pools le (Reachable-EveryTimed pools now r) k

-- In a run, the pool flapped in a round at time `u`, and was automatic in that round and ever since.
unfoldable pub Flapped : Text → ℕ → {pools : AutoPools} {now : ℕ} → Reachable pools now → Type 0
Flapped k u start = ⊥
Flapped k u (round windows auto t le r) =
    (auto k ≡ true) × (((t ≡ u) × (flapping (window_at windows k) ≡ true)) ⊎ Flapped k u r)

-- The state of the pool remembers a flapping round at time `u`, or a later one.
abbrev Remembers : ℕ → ℕ → Option AutoState → Type 0
Remembers u now none = ⊥
Remembers u now (some s) = (u ≤ now) × (u ≤ s.last_flappy)

judge-flaps :
    (p : PoolTimeline) (t : ℕ) (o : Option AutoState)
    → flapping p ≡ true
    → Remembers t t (some (judge p t (or_started t o)).0)
unfolding judge
judge-flaps p t o h = (ground arith, ground arith)

judge-Remembers :
    (p : PoolTimeline) (u now t : ℕ) (o : Option AutoState)
    → now ≤ t
    → Remembers u now o
    → Remembers u t (some (judge p t (or_started t o)).0)
unfolding judge
judge-Remembers p u now t none le h = absurd h
judge-Remembers p u now t (some s) le h = let a = h.0 in let b = h.1 in (ground arith, ground arith)

Remembers-later :
    (u now t : ℕ) (o : Option AutoState) → now ≤ t → Remembers u now o → Remembers u t o
Remembers-later u now t none le h = h
Remembers-later u now t (some s) le h = let a = h.0 in (omega arith, h.1)

-- a pool without a window does not flap
no_window :
    (windows : List (Text × PoolTimeline)) (k : Text)
    → lookup k windows ≡ none
    → flapping (window_at windows k) ≡ false
unfolding flapping
no_window windows k e = rw (e, window_at) refl

Flapped-Remembers :
    (k : Text) (u : ℕ) (pools : AutoPools) (now : ℕ) (run : Reachable pools now)
    → Flapped k u run
    → Remembers u now (lookup k pools)
unfolding Flapped
Flapped-Remembers k u _ _ start f = absurd f
Flapped-Remembers k u _ _ (round {pools} {now} windows auto t le r) (on, f) =
    subst (Remembers u t) (sym (evaluate_lem windows auto t pools k)) (
      rw on (elim (Option-cases (lookup k windows)) [
        | inl e ↦ rw e (elim f [
          | inl (_, flaps) ↦ (let calm = no_window windows k e in cc)
          | inr before ↦
              Remembers-later u now t (lookup k pools) le (Flapped-Remembers k u pools now r before)
        ])
        | inr (p, e) ↦ rw e (elim f [
          | inl (same, flaps) ↦
              subst (λ v. Remembers v t (some (judge p t (or_started t (lookup k pools))).0)) same
                (judge-flaps p t (lookup k pools) (
                  let at : window_at windows k ≡ p = rw (e, window_at) refl in
                  sym (ap flapping at) ∙ flaps))
          | inr before ↦
              judge-Remembers p u now t (lookup k pools) le
                (Flapped-Remembers k u pools now r before)
        ])
      ]))

judge-calms :
    (p : PoolTimeline) (t : ℕ) (s r : AutoState)
    → s.agile ≡ true
    → (judge p t s).0 ≡ r
    → r.agile ≡ false
    → (flapping p ≡ false) × (s.last_flappy + auto_calm ≤ t)
unfolding judge
judge-calms p t s r on e off = let kept = ap AutoState.agile e in (ground arith, ground arith)

-- In every run, a pool that the classifier made agile and that has been automatic since it flapped in
-- a round is made stable half an hour after that round at the earliest, for every such round, in a
-- round in whose window it does not flap; and half an hour after the start of its mode that its
-- state records.
pub agile_dwells :
    (pools : AutoPools) (now : ℕ) (run : Reachable pools now) (windows : List (Text × PoolTimeline))
    (auto : Text → Bool) (t : ℕ) (k : Text) (s r : AutoState) (u : ℕ)
    → lookup k pools ≡ some s
    → s.agile ≡ true
    → Flapped k u run
    → lookup k (evaluate windows auto t pools).0 ≡ some r
    → r.agile ≡ false
    → (u + auto_calm ≤ t) × (s.since + auto_calm ≤ t) × (flapping (window_at windows k) ≡ false)
agile_dwells pools now run windows auto t k s r u before on flapped after off =
    let timed = subst (IsTimed now) before (Reachable-EveryTimed pools now run k) in
    let flappy = timed.1 on in
    let seen = subst (Remembers u now) before (Flapped-Remembers k u pools now run flapped) in
    let last = seen.1 in
    let whole = sym (evaluate_lem windows auto t pools k) ∙ after in
    elim (Bool-cases (auto k)) [
      | inr not_auto ↦ let gone = rw not_auto at whole in cc
      | inl is_auto ↦ elim (Option-cases (lookup k windows)) [
        | inl e ↦ let kept : lookup k pools ≡ some r = rw (is_auto, e) at whole in cc
        | inr (p, e) ↦
            let kept : some (judge p t s).0 ≡ some r = rw (is_auto, e, before) at whole in
            let got : (judge p t s).0 ≡ r = cc kept in
            let calm = judge-calms p t s r on got off in
            let late = calm.1 in
            let at : window_at windows k ≡ p = rw (e, window_at) refl in
            (omega arith, omega arith, ap flapping at ∙ calm.0)
      ]
    ]
