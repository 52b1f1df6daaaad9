-- ===== src/Decision/Laws.antt =====
-- What a query gets after a reload.
use mathlib.Core.Option
use mathlib.Core.List.{Memᴰ}
use em_wall.Prelude.{
  ◌≡◌, ◌≢◌, refl, sym, ap, ◌∙◌, true, Option, none, some, List, [], ◌∷◌, Text, arith, All, map,
  lookup, text_eq,
}
use em_wall.Net.{Parsers}
use em_wall.Rules
use em_wall.Rules.{Rule, block, route, Action}
use em_wall.Rules.Scan.{candidate, SameKeys, most_specific-map, most_specific-IsAnswer, IsAnswer}
use em_wall.Rules.Index.{Index}
use em_wall.Rules.Index.Agrees.{IsNamed, most_specific-new_index}
use em_wall.Decision.{Decision, routed, Fetch, fetched, failed, expand, reload, decide, of_rule}

-- A failed reload keeps serving the rules of the last good one, and reports the error.
pub reload_failed :
    (net : Parsers) (src : Fetch (List Rule)) (exp : Option (Fetch (List (Text × Text))))
    (cache : Index)
    → (reload net src exp cache).1 ≡ true
    → (reload net src exp cache).0 ≡ cache
unfolding reload
reload_failed net failed exp cache h = refl
reload_failed net (fetched rs) none cache h = cc
reload_failed net (fetched rs) (some failed) cache h = refl
reload_failed net (fetched rs) (some (fetched rewrite)) cache h = cc

expand-SameKeys : (rewrite : List (Text × Text)) (r : Rule) → SameKeys (expand rewrite r) r
unfolding expand
expand-SameKeys rewrite r = ground arith

map-IsNamed :
    (rewrite : List (Text × Text)) (rs : List Rule)
    → All IsNamed rs
    → All IsNamed (map (expand rewrite) rs)
map-IsNamed rewrite [] h = tt
map-IsNamed rewrite (r ∷ rs) h =
    (λ e. h.0 (rw (expand-SameKeys rewrite r).pattern at e), map-IsNamed rewrite rs h.1)

-- The stored interface, as the expansions rewrite it. A reference that they lack stays.
abbrev pub resolved : List (Text × Text) → Text → Text
resolved rewrite i = elim (lookup i rewrite) [ some v ↦ v | none ↦ i ]

of_rule-none : (of_rule none).outcome ≢ routed
unfolding of_rule
of_rule-none h = cc

of_rule-expand :
    (rewrite : List (Text × Text)) (q : Rule)
    → (of_rule (some (expand rewrite q))).outcome ≡ routed
    → (q.action ≡ route)
      × ((of_rule (some (expand rewrite q))).rule_id ≡ q.id)
      × ((of_rule (some (expand rewrite q))).interface ≡ resolved rewrite q.interface)
unfolding of_rule expand
of_rule-expand rewrite q h = ground arith

module _ (net : Parsers) (rs : List Rule) (rewrite : List (Text × Text)) (cache : Index)
    (name : Text) where
  abbrev pub decision : Decision
  decision = decide (reload net (fetched rs) (some (fetched rewrite)) cache).0 name

  -- After a reload of rules whose patterns stand for some name, whatever was cached before, a name
  -- is decided by the most specific of the stored rules, with its own interface expanded.
  pub decide-reload :
      All IsNamed rs
      → decision ≡ of_rule (Option.map (expand rewrite) (Rules.most_specific net rs name))
  unfolding decide reload
  decide-reload named = ap of_rule (
      most_specific-new_index net (map (expand rewrite) rs) name (map-IsNamed rewrite rs named)
      ∙ most_specific-map net name (expand rewrite) (expand-SameKeys rewrite) rs)

  -- After a reload of rules whose patterns stand for some name, a name is routed only by an enabled
  -- route rule that matches it, and then through that rule's interface: the expansion that the map
  -- has for it, or the raw reference.
  pub routed_by_rule :
      All IsNamed rs
      → decision.outcome ≡ routed
      → (q : Rule) × Memᴰ q rs
        × (candidate net name q ≡ true)
        × (q.action ≡ route)
        × (decision.rule_id ≡ q.id)
        × (decision.interface ≡ resolved rewrite q.interface)
  routed_by_rule named h =
      by_answer (Rules.most_specific net rs name) (decide-reload named)
        (most_specific-IsAnswer net name rs)
    where
      by_answer :
          (o : Option Rule)
          → decision ≡ of_rule (Option.map (expand rewrite) o)
          → IsAnswer net name rs o
          → (q : Rule) × Memᴰ q rs
            × (candidate net name q ≡ true)
            × (q.action ≡ route)
            × (decision.rule_id ≡ q.id)
            × (decision.interface ≡ resolved rewrite q.interface)
      by_answer none e a = absurd (of_rule-none (sym (ap (λ d. d.outcome) e) ∙ h))
      by_answer (some q) e (m, c, best) =
          let (a, i, t) = of_rule-expand rewrite q (sym (ap (λ d. d.outcome) e) ∙ h) in
          (q, m, c, a, ap (λ d. d.rule_id) e ∙ i, ap (λ d. d.interface) e ∙ t)
