-- ===== src/ProxyTable/Expiry.antt =====
-- Record, Touch, Lookup and SweepExpired: what a mapping is worth at a time.
use em_wall.Prelude.{
  ℕ, ◌+◌, ◌≡◌, ◌∙◌, refl, sym, Option, none, some, List, [], ◌∷◌, Text, ◌==◌, nat_eq, text_eq,
  text_beq_iff, ltb, if◌then◌else◌, lookup, lookup-insert, lookup-delete, arith, Bool-cases, inl,
  inr, IsMap, All,
}
use em_wall.ProxyTable.{
  Entry, Table, put, evict, longer, record_ip, find, sweep_loop, sweep_expired,
}
use em_wall.ProxyTable.Index.{IsIndexed, put-IsIndexed, evict-IsIndexed}

-- The entry that a lookup at `now` may return.
abbrev pub unexpired : ℕ → Option Entry → Option Entry
unexpired now none = none
unexpired now (some e) = if ltb e.expires_at now then none else some e

abbrev after_sweep : ℕ → Option Entry → Option Entry → Option Entry
after_sweep now none o = o
after_sweep now (some e) o = if ltb e.expires_at now then none else o

lookup-sweep_loop :
    (now : ℕ) (k : Text) (rest : List (Text × Entry)) (t : Table) (n : ℕ)
    → IsMap rest
    → lookup k (sweep_loop now rest (t, n)).0.by_ip
      ≡ after_sweep now (lookup k rest) (lookup k t.by_ip)
unfolding sweep_loop lookup evict
lookup-sweep_loop now k [] t n u = refl
lookup-sweep_loop now k ((j, e) ∷ rest) t n u =
    let same = text_beq_iff j k in
    let once = u.0 in
    elim (Bool-cases (ltb e.expires_at now)) [
      | inl old ↦
          ground (
            arith,
            lookup-sweep_loop now k rest (evict t j e) (n + 1) u.1,
            lookup-delete j k t.by_ip,
          )
      | inr live ↦ ground (arith, lookup-sweep_loop now k rest t n u.1)
    ]

-- The entries that are still to visit stand in the table.
abbrev Pending : Table → List (Text × Entry) → Type 0
Pending t = All (λ x. lookup x.0 t.by_ip ≡ some x.1)

Pending-evict :
    (t : Table) (key : Text) (e : Entry) (rest : List (Text × Entry))
    → lookup key rest ≡ none
    → Pending t rest
    → Pending (evict t key e) rest
unfolding evict lookup
Pending-evict t key e [] u h = tt
Pending-evict t key e ((j, f) ∷ rest) u h = (
  ground (arith, lookup-delete key j t.by_ip, text_beq_iff key j, text_beq_iff j key, h.0),
  Pending-evict t key e rest (ground arith) h.1,
)

sweep_loop-IsIndexed :
    (now : ℕ) (rest : List (Text × Entry)) (t : Table) (n : ℕ)
    → IsMap rest
    → Pending t rest
    → IsIndexed t
    → IsIndexed (sweep_loop now rest (t, n)).0
unfolding sweep_loop
sweep_loop-IsIndexed now [] t n u h v = v
sweep_loop-IsIndexed now ((j, e) ∷ rest) t n u h v = elim (Bool-cases (ltb e.expires_at now)) [
  | inl old ↦
      rw (old, sweep_loop)
        (sweep_loop-IsIndexed now rest (evict t j e) (n + 1) u.1 (Pending-evict t j e rest u.0 h.1)
          (evict-IsIndexed t j e h.0 v))
  | inr live ↦ rw (live, sweep_loop) (sweep_loop-IsIndexed now rest t n u.1 h.1 v)
]

Pending-all :
    (t : Table) (rest whole : List (Text × Entry))
    → ((k : Text) (f : Entry) → lookup k rest ≡ some f → lookup k whole ≡ some f)
    → IsMap rest
    → Pending (record t { by_ip = whole }) rest
unfolding lookup
Pending-all t [] whole h u = tt
Pending-all t ((j, f) ∷ rest) whole h u = (
  h j f (ground (arith, text_beq_iff j j)),
  Pending-all t rest whole (λ k g p. h k g (ground (arith, text_beq_iff j k, u.0))) u.1,
)

sweep_expired_lem_loop :
    (t : Table) (now : ℕ) (k : Text)
    → after_sweep now (lookup k t.by_ip) (lookup k t.by_ip) ≡ unexpired now (lookup k t.by_ip)
sweep_expired_lem_loop t now k = ground arith

find-unexpired :
    (t : Table) (now : ℕ) (k : Text) → find t now (some k) ≡ unexpired now (lookup k t.by_ip)
unfolding find
find-unexpired t now k = ground arith

-- On a table whose index by rule is right, SweepExpired leaves exactly the mappings that Lookup
-- would still return at the time of the sweep, and keeps the index right.
pub sweep_expired_lem :
    (t : Table) (now : ℕ)
    → IsIndexed t
    → IsIndexed (sweep_expired t now).0
      × ((k : Text) → lookup k (sweep_expired t now).0.by_ip ≡ find t now (some k))
unfolding sweep_expired
sweep_expired_lem t now v = (
  sweep_loop-IsIndexed now t.by_ip t 0 v.keys (Pending-all t t.by_ip t.by_ip (λ k f p. p) v.keys) v,
  λ k.
      lookup-sweep_loop now k t.by_ip t 0 v.keys
      ∙ sweep_expired_lem_loop t now k
      ∙ sym (find-unexpired t now k),
)

-- On a table whose index by rule is right, a recorded mapping with at least one proxy is found,
-- with its proxies, until the longer of its lifetime and the table's minimum has passed, and the
-- other addresses are as before; the index stays right.
pub record_ip_lem :
    (t : Table) (now : ℕ) (key host name : Text) (names : List Text) (ttl rule : ℕ)
    → IsIndexed t
    → let u = record_ip t now (some key) host (name ∷ names) ttl rule in
      IsIndexed u
      × ((k : Text) (later : ℕ)
          → find u later (some k) ≡ (
              if key == k
              then (if ltb (now + longer ttl t.min_ttl) later
                  then none
                  else some (record {
                    proxy_names = name ∷ names;
                    hostname = host;
                    expires_at = now + longer ttl t.min_ttl;
                    rule_id = rule;
                  }))
              else find t later (some k)))
unfolding record_ip
record_ip_lem t now key host name names ttl rule v = (
  put-IsIndexed t key _ v,
  λ k later.
      unfold find put in
      ground (
        arith,
        lookup-insert key k
            (record {
              proxy_names = name ∷ names;
              hostname = host;
              expires_at = now + longer ttl t.min_ttl;
              rule_id = rule;
            })
            t.by_ip,
      ),
)
