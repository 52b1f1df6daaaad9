-- ===== src/ProxyTable.antt =====
-- core/proxy/table.go: the map from an address to the proxies that its DNS rule chose, with an index
-- by rule. An address is the text that `ip.String()` gives, and `none` the nil address. Times and
-- durations are nanoseconds; each operation is atomic, as the mutex makes it, and takes the time.
pub mod Index
pub mod Expiry
pub mod Removal
use em_wall.Prelude.{
  ℕ, suc, ◌+◌, Bool, true, false, not, ◌&&◌, Option, none, some, List, [], ◌∷◌, Text, ◌==◌, nat_eq,
  text_eq, ltb, leb, if◌then◌else◌, lookup, insert, delete, length,
}

pub record Entry : Type 0 where
  pub proxy_names : List Text
  pub hostname : Text
  pub expires_at : ℕ
  pub rule_id : ℕ

-- struct{}
pub data Mark : Type 0 where
  mark : Mark

-- A set of address texts.
abbrev pub Ips : Type 0
Ips = List (Text × Mark)

pub record Table : Type 0 where
  pub by_ip : List (Text × Entry)
  pub by_rule : List (ℕ × Ips)
  pub min_ttl : ℕ

-- NewTable; a negative duration is taken for 0
unfoldable pub new_table : ℕ → Table
new_table min_ttl = record {
  by_ip = [];
  by_rule = [];
  min_ttl = if min_ttl == 0 then 60000000000 else min_ttl;
}

abbrev pub is_empty : Ips → Bool
is_empty [] = true
is_empty (x ∷ xs) = false

-- set := byRule[rule]; delete(set, key), and the set goes when it is empty
pub detach : ℕ → Text → List (ℕ × Ips) → List (ℕ × Ips)
unfolding lookup delete insert
detach rule key m = elim (lookup rule m) [
  | none ↦ m
  | some set ↦ if is_empty (delete key set) then delete rule m else insert rule (delete key set) m
]

-- byRule[rule][key] = struct{}{}, with a new set where there is none
pub attach : ℕ → Text → List (ℕ × Ips) → List (ℕ × Ips)
unfolding lookup insert
attach rule key m = elim (lookup rule m) [
  | none ↦ insert rule (insert key mark []) m
  | some set ↦ insert rule (insert key mark set) m
]

-- Record, once its arguments are known to be usable
pub put : Table → Text → Entry → Table
unfolding detach attach lookup insert
put t key e = record t {
  by_ip = insert key e t.by_ip;
  by_rule = attach e.rule_id key (elim (lookup key t.by_ip) [
    | none ↦ t.by_rule
    | some prev ↦
        if not (prev.rule_id == e.rule_id) then detach prev.rule_id key t.by_rule else t.by_rule
  ]);
}

abbrev pub longer : ℕ → ℕ → ℕ
longer ttl min_ttl = if ltb ttl min_ttl then min_ttl else ttl

-- Record
unfoldable pub record_ip : Table → ℕ → Option Text → Text → List Text → ℕ → ℕ → Table
unfolding put
record_ip t now none hostname proxy_names ttl rule_id = t
record_ip t now (some key) hostname [] ttl rule_id = t
record_ip t now (some key) hostname (n ∷ ns) ttl rule_id = put t key (record {
  proxy_names = n ∷ ns;
  hostname = hostname;
  expires_at = now + longer ttl t.min_ttl;
  rule_id = rule_id;
})

-- Touch
unfoldable pub touch : Table → ℕ → Option Text → ℕ → Table × Bool
unfolding lookup insert
touch t now none ttl = (t, false)
touch t now (some key) ttl = elim (lookup key t.by_ip) [
  | none ↦ (t, false)
  | some e ↦ (record t { by_ip = insert key (record e { expires_at = now + ttl }) t.by_ip }, true)
]

-- Lookup
unfoldable pub find : Table → ℕ → Option Text → Option Entry
unfolding lookup
find t now none = none
find t now (some key) = elim (lookup key t.by_ip) [
  | none ↦ none
  | some e ↦ if ltb e.expires_at now then none else some e
]

-- for ipStr := range set { delete(t.byIP, ipStr) }
pub delete_all : Ips → List (Text × Entry) → List (Text × Entry)
unfolding delete
delete_all [] m = m
delete_all ((k, u) ∷ set) m = delete_all set (delete k m)

-- RemoveByRule
unfoldable pub remove_by_rule : Table → ℕ → Table × ℕ
unfolding lookup delete delete_all
remove_by_rule t rule = elim (lookup rule t.by_rule) [
  | none ↦ (t, 0)
  | some set ↦
      (record t { by_ip = delete_all set t.by_ip; by_rule = delete rule t.by_rule }, length set)
]

-- delete(t.byIP, ip), and the address leaves its rule's set
pub evict : Table → Text → Entry → Table
unfolding delete detach
evict t key e = record t { by_ip = delete key t.by_ip; by_rule = detach e.rule_id key t.by_rule }

-- the loop of SweepExpired, over the entries that the map had when it began
pub sweep_loop : ℕ → List (Text × Entry) → Table × ℕ → Table × ℕ
unfolding evict
sweep_loop now [] s = s
sweep_loop now ((key, e) ∷ rest) (t, n) =
    sweep_loop now rest (if ltb e.expires_at now then (evict t key e, n + 1) else (t, n))

-- SweepExpired
unfoldable pub sweep_expired : Table → ℕ → Table × ℕ
unfolding sweep_loop
sweep_expired t now = sweep_loop now t.by_ip (t, 0)

-- Len
unfoldable pub len : Table → ℕ
len t = length t.by_ip
