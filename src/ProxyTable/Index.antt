-- ===== src/ProxyTable/Index.antt =====
-- The index by rule holds what the entries say, and stays so.
use em_wall.Prelude.{
  ℕ, ◌≡◌, ◌∙◌, refl, true, ◌&&◌, Option, none, some, List, [], ◌∷◌, Text, ◌==◌, nat_eq, text_eq,
  text_beq_iff, if◌then◌else◌, lookup, insert, delete, lookup-insert, lookup-delete, arith,
  Option-cases, inl, inr, IsMap, insert-IsMap, delete-IsMap,
}
use em_wall.ProxyTable.{Entry, Ips, Mark, mark, Table, is_empty, detach, attach, put, evict}

-- Whether the set of a rule has an address.
unfoldable pub member : List (ℕ × Ips) → ℕ → Text → Option Mark
member m rule key = elim (lookup rule m) [ some set ↦ lookup key set | none ↦ none ]

is_empty-lookup : (key : Text) (set : Ips) → is_empty set ≡ true → lookup key set ≡ none
unfolding lookup
is_empty-lookup key [] h = refl
is_empty-lookup key (x ∷ xs) h = cc

pub member-detach :
    (m : List (ℕ × Ips)) (old : ℕ) (key : Text) (rule : ℕ) (k : Text)
    → member (detach old key m) rule k ≡ (if old == rule && key == k then none else member m rule k)
unfolding member detach
member-detach m old key rule k = elim (Option-cases (lookup old m)) [
  | inl e ↦ ground arith
  | inr (set, e) ↦
      let gone = lookup-delete key k set in
      let none_left = is_empty-lookup k (delete key set) in
      let removed = lookup-delete old rule m in
      let replaced = lookup-insert old rule (delete key set) m in ground arith
]

pub member-attach :
    (m : List (ℕ × Ips)) (new : ℕ) (key : Text) (rule : ℕ) (k : Text)
    → member (attach new key m) rule k
      ≡ (if new == rule && key == k then some mark else member m rule k)
unfolding member attach
member-attach m new key rule k = elim (Option-cases (lookup new m)) [
  | inl e ↦
      let first : lookup k (insert key mark []) ≡ (if key == k then some mark else none) =
        lookup-insert key k mark [] ∙ unfold lookup in refl in
      let added = lookup-insert new rule (insert key mark []) m in ground arith
  | inr (set, e) ↦
      let more = lookup-insert key k mark set in
      let added = lookup-insert new rule (insert key mark set) m in ground arith
]

-- What the index should say of an address: the rule of its entry, and no other.
abbrev pub owned : Option Entry → ℕ → Option Mark
owned none rule = none
owned (some e) rule = if e.rule_id == rule then some mark else none

-- The sets hold exactly the addresses of their rules' entries, and no key stands twice.
pub record IsIndexed (t : Table) : Type 0 where
  pub at : (rule : ℕ) (key : Text) → member t.by_rule rule key ≡ owned (lookup key t.by_ip) rule
  pub keys : IsMap t.by_ip

pub put-IsIndexed : (t : Table) (key : Text) (e : Entry) → IsIndexed t → IsIndexed (put t key e)
unfolding put
put-IsIndexed t key e v = record {
  keys = insert-IsMap key e t.by_ip v.keys;
  at = λ rule k.
      let stored = lookup-insert key k e t.by_ip in
      let same = text_beq_iff key k in
      let before = v.at rule k in
      elim (Option-cases (lookup key t.by_ip)) [
        | inl p ↦ ground (arith, member-attach t.by_rule e.rule_id key rule k)
        | inr (prev, p) ↦ ground (
          arith,
          member-attach t.by_rule e.rule_id key rule k,
          member-attach (detach prev.rule_id key t.by_rule) e.rule_id key rule k,
          member-detach t.by_rule prev.rule_id key rule k,
        )
      ];
}

pub evict-IsIndexed :
    (t : Table) (key : Text) (e : Entry)
    → lookup key t.by_ip ≡ some e
    → IsIndexed t
    → IsIndexed (evict t key e)
unfolding evict
evict-IsIndexed t key e p v = record {
  keys = delete-IsMap key t.by_ip v.keys;
  at = λ rule k. ground (
    arith,
    lookup-delete key k t.by_ip,
    text_beq_iff key k,
    v.at rule k,
    member-detach t.by_rule e.rule_id key rule k,
  );
}
