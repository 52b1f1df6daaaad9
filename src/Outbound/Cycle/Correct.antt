-- ===== src/Outbound/Cycle/Correct.antt =====
-- The answer of DetectDialerCycle.
use em_wall.Prelude.{
  ℕ, suc, ◌≤◌, ◌≡◌, ◌≢◌, ◌↔◌, refl, sym, subst, true, false, ◌||◌, none, some, List, [], ◌∷◌, ◌++◌,
  Text, ◌==◌, nat_eq, text_eq, text_beq_iff, length, lookup, is_listed, arith, Bool-cases, inl, inr,
}
use em_wall.Outbound.{normalize_name}
use em_wall.Outbound.Cycle.{
  Graph, targets, Colors, mentioned, Answer, cyclic, out_of_fuel, acyclic, dfs, verdict,
  search_from, Config, dialer_graph, detect_dialer_cycle,
}
use em_wall.Outbound.Cycle.Search.{
  Reaches, here, step, HasCycle, Ordered, IsSettled, idle, Answered, dfs-Answered,
}

Ordered-edge :
    (adj : Graph) (ds : List Text) (n m : Text)
    → Ordered adj ds
    → is_listed n ds ≡ true
    → is_listed m (targets adj n) ≡ true
    → is_listed m ds ≡ true
Ordered-edge adj [] n m o l e = cc
Ordered-edge adj (d ∷ ds) n m o l e = elim (Bool-cases (d == n)) [
  | inl same ↦
      let low =
        o.0 m
          (subst (λ j. is_listed m (targets adj j) ≡ true) (sym ((text_beq_iff d n).0 same)) e) in
      ground arith
  | inr other ↦ let low = Ordered-edge adj ds n m o.2 (ground arith) e in ground arith
]

Ordered-Reaches :
    (adj : Graph) (ds : List Text) (n m : Text)
    → Ordered adj ds
    → is_listed n ds ≡ true
    → Reaches adj n m
    → is_listed m ds ≡ true
Ordered-Reaches adj ds n m o l here = l
Ordered-Reaches adj ds n m o l (step {m = p} e r) =
    Ordered-Reaches adj ds p m o (Ordered-edge adj ds n p o l e) r

Ordered-no_cycle :
    (adj : Graph) (ds : List Text) (n m : Text)
    → Ordered adj ds
    → is_listed n ds ≡ true
    → is_listed m (targets adj n) ≡ true
    → ¬ Reaches adj m n
Ordered-no_cycle adj [] n m o l e back = cc
Ordered-no_cycle adj (d ∷ ds) n m o l e back = elim (Bool-cases (d == n)) [
  | inl same ↦
      let is_d = (text_beq_iff d n).0 same in
      let low = o.0 m (subst (λ j. is_listed m (targets adj j) ≡ true) (sym is_d) e) in
      let again = Ordered-Reaches adj ds m n o.2 low back in
      let once : is_listed n ds ≡ false = subst (λ j. is_listed j ds ≡ false) is_d o.1 in cc
  | inr other ↦ Ordered-no_cycle adj ds n m o.2 (ground arith) e back
]

is_listed-append :
    (k : Text) (xs ys : List Text) → is_listed k (xs ++ ys) ≡ (is_listed k xs || is_listed k ys)
is_listed-append k [] ys = refl
is_listed-append k (x ∷ xs) ys = ground (arith, is_listed-append k xs ys)

mentioned-targets :
    (adj : Graph) (n m : Text)
    → is_listed m (targets adj n) ≡ true
    → is_listed m (mentioned adj) ≡ true
unfolding targets lookup
mentioned-targets [] n m h = ground arith
mentioned-targets ((k, ms) ∷ adj) n m h =
    ground (arith, is_listed-append m ms (mentioned adj), mentioned-targets adj n m)

idle-length : (c : Colors) (u : List Text) → idle c u ≤ length u
idle-length c [] = omega arith
idle-length c (n ∷ u) = ground (arith, idle-length c u)

IsSettled-white : (adj : Graph) → IsSettled adj (λ n. 0)
IsSettled-white adj = record { order = []; listed = λ q. refl; ordered = tt }

module _ (adj : Graph) (self : Text) where
  abbrev names : List Text
  names = self ∷ mentioned adj

  names-targets : (n m : Text) → is_listed m (targets adj n) ≡ true → is_listed m names ≡ true
  names-targets n m h = let l = mentioned-targets adj n m h in ground arith

  answered :
      Answered adj self names names-targets
        (λ n. 0)
        (λ d. d self ≡ 2)
        (dfs (suc (suc (length (mentioned adj)))) adj (λ n. 0) self)
  answered =
      let same = text_beq_iff self self in
      let most = idle-length (λ n. 0) names in
      dfs-Answered adj self names names-targets (suc (suc (length (mentioned adj)))) (λ n. 0) self
        (record {
          settled = IsSettled-white adj;
          to_name = here;
          behind = λ q h. ground arith;
          three = λ q. omega arith;
        })
        refl (ground arith) (omega arith)

  of_answer :
      (a : Answer)
      → Answered adj self names names-targets (λ n. 0) (λ d. d self ≡ 2) a
      → (verdict a ≢ none) × ((verdict a ≡ some true) ↔ HasCycle adj self)
  of_answer cyclic h = (λ e. cc, (λ e. h, λ c. refl))
  of_answer out_of_fuel h = cc
  of_answer (acyclic d) h =
      let settled = h.0.settled in
      let l = settled.listed self in
      let done = h.1 in
      let in_order : is_listed self settled.order ≡ true = ground arith in
      (
        λ e. cc,
        (
          λ e. cc,
          λ c. absurd (
              Ordered-no_cycle adj settled.order c.node c.next settled.ordered
                (Ordered-Reaches adj settled.order self c.node settled.ordered in_order c.to_node)
                c.edge c.back),
        ),
      )

  search_from_lem :
      (search_from adj self ≢ none) × ((search_from adj self ≡ some true) ↔ HasCycle adj self)
  unfolding search_from
  search_from_lem = of_answer (dfs (suc (suc (length (mentioned adj)))) adj (λ n. 0) self) answered

-- DetectDialerCycle ends on every list of entries, with or without cycles among them: its depth stays
-- within the names that the graph mentions.
pub detect_dialer_cycle_ends :
    (entries : List Config) (self_id : ℕ) (self_name self_dialer : Text)
    → detect_dialer_cycle entries self_id self_name self_dialer ≢ none
unfolding detect_dialer_cycle
detect_dialer_cycle_ends entries self_id self_name self_dialer =
    (search_from_lem (dialer_graph entries self_id self_name self_dialer)
      (normalize_name self_name)).0

-- DetectDialerCycle answers true exactly if some walk along the references, from the entry as
-- proposed, comes to a name from which a further walk of one reference or more leads back to that name.
pub detect_dialer_cycle_lem :
    (entries : List Config) (self_id : ℕ) (self_name self_dialer : Text)
    → (detect_dialer_cycle entries self_id self_name self_dialer ≡ some true)
      ↔ HasCycle (dialer_graph entries self_id self_name self_dialer) (normalize_name self_name)
unfolding detect_dialer_cycle
detect_dialer_cycle_lem entries self_id self_name self_dialer =
    (search_from_lem (dialer_graph entries self_id self_name self_dialer)
      (normalize_name self_name)).1
