-- ===== src/Strategy/Chosen.antt =====
-- Which strategy a pool gets from its subscriptions.
use em_wall.Prelude.{
  ◌+◌, ◌≡◌, refl, Bool, true, false, not, ◌&&◌, ◌||◌, Option, none, some, List, [], ◌∷◌, Text,
  text_eq, nat_eq, ltb, if◌then◌else◌, arith, Option-cases, inl, inr,
}
use em_wall.Outbound.{DialerRef}
use em_wall.Strategy.{
  Strategy, auto, stable, agile, manual, effective_strategy, Counts, count, sub_strategy,
  pool_strategy_from, pool_strategy,
}

abbrev pub strategy_eqb : Strategy → Strategy → Bool
strategy_eqb auto auto = true
strategy_eqb stable stable = true
strategy_eqb agile agile = true
strategy_eqb manual manual = true
strategy_eqb _ _ = false

-- Some subscription among the references that the store knows has this strategy.
abbrev pub has_strategy : Strategy → Option Text → Bool
has_strategy v none = false
has_strategy v (some stored) = strategy_eqb v (effective_strategy stored)

abbrev pub any_strategy : (Text → Option Text) → Strategy → List DialerRef → Bool
any_strategy store v [] = false
any_strategy store v (r ∷ refs) = has_strategy v (sub_strategy store r) || any_strategy store v refs

-- The choice, from whether some subscription of the pool is manual, agile, automatic or stable.
abbrev pub chosen : Bool → Bool → Bool → Bool → Bool → Strategy × Bool
chosen classified is_manual is_agile is_auto is_stable =
    if is_manual
    then (manual, false)
    else if is_agile
    then (agile, false)
    else if is_stable && not is_auto
    then (stable, false)
    else if classified
    then (agile, true)
    else (stable, true)

of_sub :
    (classified : Bool) (c : Counts) (v : Strategy) (other : Counts → Strategy × Bool)
    (m a u s : Bool)
    → ((d : Counts)
        → other d ≡ chosen classified m (a || d.some_agile) (u || d.some_auto) (s || ltb 0 d.subs))
    → (elim (count v c) [ none ↦ (manual, false) | some d ↦ other d ])
      ≡ chosen classified
          (strategy_eqb manual v || m)
          (strategy_eqb agile v || a || c.some_agile)
          (strategy_eqb auto v || u || c.some_auto)
          (strategy_eqb stable v || s || ltb 0 c.subs)
of_sub classified c auto other m a u s h =
    let g = h (record c { subs = c.subs + 1; some_auto = true }) in ground arith
of_sub classified c stable other m a u s h =
    let g = h (record c { subs = c.subs + 1 }) in ground arith
of_sub classified c agile other m a u s h =
    let g = h (record c { subs = c.subs + 1; some_agile = true }) in ground arith
of_sub classified c manual other m a u s h = refl

pool_strategy_from_lem :
    (store : Text → Option Text) (classified : Bool) (refs : List DialerRef) (c : Counts)
    → pool_strategy_from store classified refs c
      ≡ chosen classified
          (any_strategy store manual refs)
          (any_strategy store agile refs || c.some_agile)
          (any_strategy store auto refs || c.some_auto)
          (any_strategy store stable refs || ltb 0 c.subs)
unfolding pool_strategy_from
pool_strategy_from_lem store classified [] c = ground arith
pool_strategy_from_lem store classified (r ∷ refs) c = elim (Option-cases (sub_strategy store r)) [
  | inl e ↦ let ih = pool_strategy_from_lem store classified refs c in rw (e, pool_strategy_from) ih
  | inr (t, e) ↦
      rw (e, pool_strategy_from)
        (of_sub classified c (effective_strategy t) (pool_strategy_from store classified refs)
          (any_strategy store manual refs) (any_strategy store agile refs)
          (any_strategy store auto refs) (any_strategy store stable refs)
          (pool_strategy_from_lem store classified refs))
]

-- The strategy of a pool depends only on which strategies its known subscriptions have, not on their
-- order or number: manual if one is manual, else agile if one is agile, else stable if one is stable
-- and none automatic, else what the classifier chose.
pub pool_strategy_lem :
    (store : Text → Option Text) (classified : Bool) (refs : List DialerRef)
    → pool_strategy store classified refs
      ≡ chosen classified
          (any_strategy store manual refs)
          (any_strategy store agile refs)
          (any_strategy store auto refs)
          (any_strategy store stable refs)
unfolding pool_strategy
pool_strategy_lem store classified refs =
    let whole =
      pool_strategy_from_lem store classified refs
        (record { some_auto = false; some_agile = false; subs = 0 }) in
    ground arith
