-- ===== src/Rules/Index.antt =====
-- core/rules/index.go: the rule list compiled for lookup. A pointer into the rule slice is the rule
-- itself, since the slice must not change while the index is in use.
pub mod Labels
pub mod Climb
pub mod Agrees
pub mod Addresses
use em_wall.Prelude.{
  ℕ, ◌+◌, Bool, true, not, ◌&&◌, ◌||◌, Option, none, some, List, [], ◌∷◌, ◌++◌, Text, ◌==◌, nat_eq,
  text_eq, ltb, leb, drop, if◌then◌else◌, text_beq, lookup, insert,
}
use em_wall.Text.{has_prefix}
use em_wall.Net.{Ip, IpNet, Parsers, contains}
use em_wall.Rules.{Rule, Best, no_best, normalize, wildcard, dot, parse_cidr, consider}

pub record IpRule : Type 0 where
  pub net : IpNet
  pub ones : ℕ
  pub rule : Rule

pub record Index : Type 0 where
  pub exact : List (Text × Rule)
  pub wild : List (Text × Rule)
  pub ips : List IpRule

abbrev pub empty : Index
empty = record { exact = []; wild = []; ips = [] }

-- if cur, ok := m[key]; !ok || r.ID < cur.ID { m[key] = r }
pub keep_older : Text → Rule → List (Text × Rule) → List (Text × Rule)
unfolding lookup insert
keep_older key r m = elim (lookup key m) [
  | none ↦ insert key r m
  | some cur ↦ if ltb r.id cur.id then insert key r m else m
]

pub add_name : Index → Rule → Index
unfolding normalize has_prefix keep_older text_beq
add_name ix r =
    let p = normalize r.pattern in
    if p == []
    then ix
    else if has_prefix p wildcard
    then (if drop 2 p == [] then ix else record ix { wild = keep_older (drop 2 p) r ix.wild })
    else record ix { exact = keep_older p r ix.exact }

-- The loop of MostSpecific over `s`: `at_label` says that `s` begins a label, where the map is
-- looked up; in between, the search for the next dot goes on.
pub climb : List (Text × Rule) → Bool → Text → Option Rule
climb wild at_label [] = if at_label then lookup [] wild else none
climb wild at_label (c ∷ s) =
    let rest = climb wild (c == dot) s in
    if at_label then elim (lookup (c ∷ s) wild) [ some r ↦ some r | none ↦ rest ] else rest

pub find_name : Index → Text → Option Rule
unfolding climb lookup
find_name ix n = elim (lookup n ix.exact) [ some r ↦ some r | none ↦ climb ix.wild true n ]

unfoldable pub most_specific : Index → Text → Option Rule
unfolding normalize find_name text_beq
most_specific ix name = let n = normalize name in if n == [] then none else find_name ix n

pub find_ip : Ip → Best → List IpRule → Best
unfolding contains consider
find_ip ip b [] = b
find_ip ip b (c ∷ cs) = find_ip ip (if contains c.net ip then consider b c.rule c.ones else b) cs

unfoldable pub most_specific_ip : Index → Ip → Option Rule
unfolding find_ip
most_specific_ip ix ip = (find_ip ip no_best ix.ips).best

module _ (net : Parsers) where
  pub add : Index → Rule → Index
  unfolding parse_cidr add_name
  add ix r = if not r.enabled then ix else elim (parse_cidr net r.pattern) [
    | some n ↦ record ix { ips = ix.ips ++ (record { net = n; ones = n.ones; rule = r } ∷ []) }
    | none ↦ add_name ix r
  ]

  pub add_all : Index → List Rule → Index
  add_all ix [] = ix
  add_all ix (r ∷ rs) = add_all (add ix r) rs

  unfoldable pub new_index : List Rule → Index
  unfolding add add_all
  new_index rs = add_all empty rs
