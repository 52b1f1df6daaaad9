-- ===== src/Strategy.antt =====
-- core/xray/strategy.go and daemon/xray_strategy.go: how a pool of members switches between them. The
-- texts that give a reason are left out. Times are nanoseconds, 0 the zero time, and the receivers
-- are not nil.
pub mod Chosen
pub mod Auto
pub mod Agile
use em_wall.Prelude.{
  ℕ, zero, suc, ◌+◌, Bool, true, false, not, ◌&&◌, ◌||◌, Option, none, some, List, [], ◌∷◌, Text,
  codes, ◌==◌, text_eq, nat_eq, ltb, leb, lookup, if◌then◌else◌,
}
use em_wall.Text.{to_lower, trim_space}
use em_wall.Outbound.{DialerRef, Kind, xray, xraysub, proxy}

pub data Strategy : Type 0 where
  auto stable agile manual : Strategy

-- the switch of ParseStrategy
unfoldable pub strategy_of : Text → Option Strategy
strategy_of s =
    if s == [] || s == codes "auto"
    then some auto
    else if s == codes "stable"
    then some stable
    else if s == codes "agile"
    then some agile
    else if s == codes "manual"
    then some manual
    else none

-- ParseStrategy
unfoldable pub parse_strategy : Text → Option Strategy
unfolding strategy_of to_lower trim_space
parse_strategy s = strategy_of (to_lower (trim_space s))

abbrev pub or_auto : Option Strategy → Strategy
or_auto none = auto
or_auto (some v) = v

-- EffectiveStrategy, of a subscription's stored text
unfoldable pub effective_strategy : Text → Strategy
unfolding parse_strategy
effective_strategy stored = or_auto (parse_strategy stored)

-- what poolStrategy counts
pub record Counts : Type 0 where
  pub some_auto : Bool
  pub some_agile : Bool
  pub subs : ℕ

-- after the loop: the strategy, and whether the classifier chose it
abbrev pub of_counts : Bool → Counts → Strategy × Bool
of_counts classified c =
    if c.some_agile
    then (agile, false)
    else if ltb 0 c.subs && not c.some_auto
    then (stable, false)
    else if classified
    then (agile, true)
    else (stable, true)

-- a subscription's strategy in the counts; none is manual, which ends the loop
abbrev pub count : Strategy → Counts → Option Counts
count manual c = none
count agile c = some (record c { subs = c.subs + 1; some_agile = true })
count auto c = some (record c { subs = c.subs + 1; some_auto = true })
count stable c = some (record c { subs = c.subs + 1 })

abbrev pub is_sub : Kind → Bool
is_sub xraysub = true
is_sub _ = false

-- the subscription that a reference names, in a store that holds the text of its strategy
abbrev pub sub_strategy : (Text → Option Text) → DialerRef → Option Text
sub_strategy store r = if is_sub r.kind then store r.name else none

-- the loop of poolStrategy
unfoldable pub pool_strategy_from :
    (Text → Option Text) → Bool → List DialerRef → Counts → Strategy × Bool
unfolding effective_strategy
pool_strategy_from store classified [] c = of_counts classified c
pool_strategy_from store classified (r ∷ refs) c = elim (sub_strategy store r) [
  | none ↦ pool_strategy_from store classified refs c
  | some stored ↦ elim (count (effective_strategy stored) c) [
    | none ↦ (manual, false)
    | some d ↦ pool_strategy_from store classified refs d
  ]
]

-- poolStrategy; `store` is GetSubByName, and `classified` whether the classifier has the pool agile
unfoldable pub pool_strategy : (Text → Option Text) → Bool → List DialerRef → Strategy × Bool
unfolding pool_strategy_from
pool_strategy store classified refs =
    pool_strategy_from store classified refs
      (record { some_auto = false; some_agile = false; subs = 0 })

-- `flapping` and the classifier
abbrev pub auto_flips : ℕ
auto_flips = 2

abbrev pub auto_flapping_pct : ℕ
auto_flapping_pct = 30

abbrev pub auto_min_flapping : ℕ
auto_min_flapping = 2

abbrev pub auto_pick_losses : ℕ
auto_pick_losses = 2

abbrev pub auto_calm : ℕ
auto_calm = 1800000000000
