-- ===== src/ProxyTable/Removal.antt =====
-- RemoveByRule.
use em_wall.Prelude.{
  ℕ, ◌≡◌, ◌∙◌, refl, sym, ap, subst, Option, none, some, List, [], ◌∷◌, Text, ◌==◌, nat_eq, text_eq,
  text_beq_iff, if◌then◌else◌, lookup, delete, length, lookup-delete, arith, Option-cases, inl, inr,
  IsMap, delete-IsMap,
}
use em_wall.ProxyTable.{Entry, Ips, Mark, Table, delete_all, remove_by_rule}
use em_wall.ProxyTable.Index.{IsIndexed, member}

abbrev without : Option Mark → Option Entry → Option Entry
without none o = o
without (some m) o = none

lookup-delete_all :
    (k : Text) (set : Ips) (m : List (Text × Entry))
    → lookup k (delete_all set m) ≡ without (lookup k set) (lookup k m)
unfolding delete_all lookup
lookup-delete_all k [] m = refl
lookup-delete_all k ((j, u) ∷ set) m =
    ground (arith, lookup-delete_all k set (delete j m), lookup-delete j k m, text_beq_iff j k)

delete_all-IsMap : (set : Ips) (m : List (Text × Entry)) → IsMap m → IsMap (delete_all set m)
unfolding delete_all
delete_all-IsMap [] m h = h
delete_all-IsMap ((j, u) ∷ set) m h = delete_all-IsMap set (delete j m) (delete-IsMap j m h)

-- The entry, unless it belongs to the rule.
abbrev pub not_of : ℕ → Option Entry → Option Entry
not_of rule none = none
not_of rule (some e) = if e.rule_id == rule then none else some e

removed : Table → ℕ → Ips → Table
removed t rule set = record t { by_ip = delete_all set t.by_ip; by_rule = delete rule t.by_rule }

module _ (t : Table) (rule : ℕ) (v : IsIndexed t) where
  remove_by_rule-none : lookup rule t.by_rule ≡ none → remove_by_rule t rule ≡ (t, 0)
  unfolding remove_by_rule
  remove_by_rule-none e = ground arith

  remove_by_rule-some :
      (set : Ips)
      → lookup rule t.by_rule ≡ some set
      → remove_by_rule t rule ≡ (removed t rule set, length set)
  unfolding remove_by_rule removed
  remove_by_rule-some set e = ground arith

  lookup-removed :
      (set : Ips)
      → lookup rule t.by_rule ≡ some set
      → (k : Text) → lookup k (removed t rule set).by_ip ≡ not_of rule (lookup k t.by_ip)
  unfolding removed member
  lookup-removed set e k = ground (arith, lookup-delete_all k set t.by_ip, v.at rule k)

  removed-IsIndexed :
      (set : Ips) → lookup rule t.by_rule ≡ some set → IsIndexed (removed t rule set)
  removed-IsIndexed set e = record {
    keys = unfold removed in delete_all-IsMap set t.by_ip v.keys;
    at = λ r k.
        let known = v.at r k in
        let gone = lookup-removed set e k in
        let sets = lookup-delete rule r t.by_rule in unfold removed member in ground arith;
  }

  unowned :
      lookup rule t.by_rule ≡ none → (k : Text) → not_of rule (lookup k t.by_ip) ≡ lookup k t.by_ip
  unfolding member
  unowned e k = ground (arith, v.at rule k)

  -- RemoveByRule takes exactly the mappings of its rule out of a table whose index is right, and
  -- the index stays right.
  pub remove_by_rule_lem :
      IsIndexed (remove_by_rule t rule).0
      × ((k : Text) → lookup k (remove_by_rule t rule).0.by_ip ≡ not_of rule (lookup k t.by_ip))
  remove_by_rule_lem = elim (Option-cases (lookup rule t.by_rule)) [
    | inl e ↦
        let same = ap (λ x. x.0) (remove_by_rule-none e) in
        (subst IsIndexed (sym same) v, λ k. ap (λ t. lookup k t.by_ip) same ∙ sym (unowned e k))
    | inr (set, e) ↦
        let same = ap (λ x. x.0) (remove_by_rule-some set e) in
        (
          subst IsIndexed (sym same) (removed-IsIndexed set e),
          λ k. ap (λ t. lookup k t.by_ip) same ∙ lookup-removed set e k,
        )
  ]
