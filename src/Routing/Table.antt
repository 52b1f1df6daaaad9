-- ===== src/Routing/Table.antt =====
-- What the operations do to the table of routes, whatever the system answers.
use em_wall.Prelude.{
  ℕ, ◌+◌, ◌≡◌, ◌∙◌, refl, subst, Bool, true, false, Option, none, some, List, [], ◌∷◌, Text, ◌==◌,
  nat_eq, text_eq, text_beq_iff, lookup, is_listed, IsMap, lookup-insert, lookup-delete, ltb,
  if◌then◌else◌, arith, Bool-cases, Option-cases, inl, inr,
}
use em_wall.Routing.{
  Entry, Routes, Reply, install, remove, remove_hosts, hosts_where, remove_by_rule, is_stale,
  sweep_expired, flush,
}

-- An entry that does not pass the test.
abbrev pub unless_test : (Entry → Bool) → Option Entry → Option Entry
unless_test test none = none
unless_test test (some e) = if test e then none else some e

abbrev passes : (Entry → Bool) → Option Entry → Bool
passes test none = false
passes test (some e) = test e

module _ {World : Type 0} (run : World → List Text → World × Reply) where
  lookup-remove :
      (routes : Routes) (w : World) (h k : Text)
      → lookup k (remove run routes w h).0 ≡ (if h == k then none else lookup k routes)
  unfolding remove
  lookup-remove routes w h k = elim (Option-cases (lookup h routes)) [
    | inl e ↦
        let same : (h == k) ≡ true → lookup k routes ≡ none =
          λ q. subst (λ j. lookup j routes ≡ none) ((text_beq_iff h k).0 q) e in
        ground arith
    | inr (x, e) ↦ ground (arith, lookup-delete h k routes)
  ]

  lookup-remove_hosts :
      (hosts : List Text) (routes : Routes) (w : World) (k : Text)
      → lookup k (remove_hosts run hosts routes w).0
        ≡ (if is_listed k hosts then none else lookup k routes)
  unfolding remove_hosts
  lookup-remove_hosts [] routes w k = refl
  lookup-remove_hosts (h ∷ hosts) routes w k =
      let (rest, v, err) = remove run routes w h in
      let one = lookup-remove routes w h k in
      let more = lookup-remove_hosts hosts rest v k in ground arith

is_listed-hosts_where :
    (test : Entry → Bool) (routes : Routes) (k : Text)
    → IsMap routes
    → is_listed k (hosts_where test routes) ≡ passes test (lookup k routes)
unfolding lookup
is_listed-hosts_where test [] k m = refl
is_listed-hosts_where test ((h, e) ∷ routes) k m =
    let ih = is_listed-hosts_where test routes k m.1 in
    let once = m.0 in
    elim (Bool-cases (h == k)) [
      | inl same ↦
          let gone : lookup k routes ≡ none =
            subst (λ j. lookup j routes ≡ none) ((text_beq_iff h k).0 same) once in
          ground arith
      | inr other ↦ ground arith
    ]

-- The entry that a sweep leaves: a static one always, another one while it has not run out.
unfoldable pub after_sweep : ℕ → Option Entry → Option Entry
after_sweep now none = none
after_sweep now (some e) =
    if e.is_static then some e else if ltb e.expires_at now then none else some e

module _ {World : Type 0} (run : World → List Text → World × Reply) where
  removed_where :
      (test : Entry → Bool) (routes : Routes) (w : World) (k : Text)
      → IsMap routes
      → lookup k (remove_hosts run (hosts_where test routes) routes w).0
        ≡ unless_test test (lookup k routes)
  removed_where test routes w k m =
      let a = lookup-remove_hosts run (hosts_where test routes) routes w k in
      let b = is_listed-hosts_where test routes k m in
      elim (Option-cases (lookup k routes)) [ inl e ↦ ground arith | inr (x, e) ↦ ground arith ]

  swept : (now : ℕ) (o : Option Entry) → unless_test (is_stale now) o ≡ after_sweep now o
  unfolding after_sweep
  swept now none = refl
  swept now (some e) = ground arith

  -- Whatever the system answers to the deletions, on a table that holds a destination once: a sweep
  -- leaves exactly the routes that are static or that end at the time of the sweep or later, the
  -- removal of a rule exactly those of the other rules, and a flush none.
  pub routes_removed :
      (routes : Routes) (w : World) (now rule : ℕ) (k : Text)
      → IsMap routes
      → (lookup k (sweep_expired run routes w now).0 ≡ after_sweep now (lookup k routes))
        × ((lookup k (remove_by_rule run routes w rule).0
              ≡ unless_test (λ e. e.rule_id == rule) (lookup k routes))
            × (lookup k (flush run routes w).0 ≡ none))
  unfolding sweep_expired remove_by_rule flush
  routes_removed routes w now rule k m = (
    removed_where (is_stale now) routes w k m ∙ swept now (lookup k routes),
    (
      removed_where (λ e. e.rule_id == rule) routes w k m,
      (removed_where (λ e. true) routes w k m ∙ every_one (lookup k routes)),
    ),
  )
    where
      every_one : (o : Option Entry) → unless_test (λ e. true) o ≡ none
      every_one none = refl
      every_one (some e) = refl

  -- An Install that returns an error leaves the table as it was; one that does not leaves the new
  -- route for the host, to run out after its lifetime, and every other route as it was.
  pub install_lem :
      (routes : Routes) (w : World) (cancelled : ℕ → Bool) (host : Text) (is_v4 : Bool)
      (iface : Text) (now ttl rule_id : ℕ)
      → let (after, v, err) =
          install run routes w cancelled host (some is_v4) iface now ttl rule_id in
        (err ≡ true → after ≡ routes)
        × (err ≡ false
            → (k : Text)
            → lookup k after ≡ (
                if host == k
                then some (record {
                  host = host;
                  iface = iface;
                  expires_at = now + ttl;
                  rule_id = rule_id;
                  is_net = false;
                  is_v4 = is_v4;
                  is_static = false;
                })
                else lookup k routes))
  unfolding install
  install_lem routes w cancelled host is_v4 iface now ttl rule_id =
      let e : Entry = record {
        host = host;
        iface = iface;
        expires_at = now + ttl;
        rule_id = rule_id;
        is_net = false;
        is_v4 = is_v4;
        is_static = false;
      } in
      (λ h. ground arith, λ h k. ground (arith, lookup-insert host k e routes))
