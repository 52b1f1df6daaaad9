-- ===== src/Dns/Mapped.antt =====
-- The fake-IP path: what the client is told, the pool and the proxy mapping agree.
use em_wall.Prelude.{
  ℕ, ◌+◌, ◌/◌, ◌%◌, ◌^◌, ◌≤◌, ◌≡◌, ◌⊎◌, inl, inr, refl, Bool, Option, none, some, List, [], ◌∷◌,
  Text, ◌==◌, nat_eq, text_eq, text_beq_iff, arith, Bool-cases, Option-cases,
}
use em_wall.Net.{v4}
use em_wall.Outbound.{parse_interface, proxy_prefix}
use em_wall.FakeIp.{Pool, allocate}
use em_wall.FakeIp.Leases.{IsLeased, allocate-IsLeased}
use em_wall.ProxyTable.{Table, find, longer, record_ip}
use em_wall.ProxyTable.Index.{IsIndexed}
use em_wall.ProxyTable.Expiry.{record_ip_lem}
use em_wall.Dns.{a, Question, Query, Installer, Env, Config, Server, Line, Out, second, type_a}
use em_wall.Dns.Fake.{give_fake, pin_fake, handle_fake_ip}
use em_wall.Dns.Pinned.{answers}

record_ip-find :
    (t : Table) (now : ℕ) (key host : Text) (names : List Text) (name : Text) (ttl rule later : ℕ)
    → IsIndexed t
    → later ≤ now + longer ttl t.min_ttl
    → find (record_ip t now (some key) host (name ∷ names) ttl rule) later (some key)
      ≡ some (record {
        proxy_names = name ∷ names;
        hostname = host;
        expires_at = now + longer ttl t.min_ttl;
        rule_id = rule;
      })
record_ip-find t now key host names name ttl rule later v live =
    let found = (record_ip_lem t now key host name names ttl rule v).1 key later in
    ground (arith, found, text_beq_iff key key)

module _ {World : Type 0} (env : Env World) (cfg : Config) (req : Query) where
  -- The reply has the one address `v`, which is leased to the name and mapped to it and its proxies.
  pub record IsMapped (result : Server World × Out) (name : Text) (names : List Text)
      (rule_id v term : ℕ) (before : Table) : Type 0 where
    pub told : answers result.1 ≡ a (some (v4 v)) (cfg.route_ttl_min / second % 2 ^ 32) ∷ []
    pub leased : (p : Pool) × (result.0.fake_ip ≡ some p) × IsLeased p name v term
    pub mapped :
        (later : ℕ)
        → later ≤ env.clock result.0.world + longer cfg.route_ttl_min before.min_ttl
        → find result.0.table later (some (env.show_ip (v4 v)))
          ≡ some (record {
            proxy_names = names;
            hostname = name;
            expires_at = env.clock result.0.world + longer cfg.route_ttl_min before.min_ttl;
            rule_id = rule_id;
          })

  module _ (has : World → Text → Bool) (present : env.has_proxy ≡ some has) (name eff : Text)
      (n : Text) (ns : List Text) (named : parse_interface proxy_prefix eff ≡ n ∷ ns) where
    give_fake-IsMapped :
        (s : Server World) (p : Pool) (q : Question) (line : Text → Line) (rule_id v term : ℕ)
        → IsIndexed s.table
        → s.fake_ip ≡ some p
        → IsLeased p name v term
        → IsMapped
            (give_fake env cfg s req q name eff line rule_id v)
            name
            (n ∷ ns)
            rule_id
            v
            term
            s.table
    unfolding give_fake
    give_fake-IsMapped s p q line rule_id v term indexed pool leased = record {
      told = refl;
      leased = (p, pool, leased);
      mapped = λ later live.
          rw (present, named)
            (record_ip-find s.table (env.clock s.world) (env.show_ip (v4 v)) name ns n
              cfg.route_ttl_min rule_id later indexed live);
    }

    -- Nothing is told and mapped, or an address is both.
    abbrev Agrees : Table → ℕ → ℕ → ℕ → Server World × Out → Type 0
    Agrees before rule_id v term result =
        ((answers result.1 ≡ []) × (result.0.table ≡ before))
        ⊎ IsMapped result name (n ∷ ns) rule_id v term before

    pin_fake-Agrees :
        (o : Option (Installer World)) (s : Server World) (p : Pool) (q : Question) (iface : Text)
        (line : Text → Line) (rule_id v term : ℕ)
        → IsIndexed s.table
        → IsLeased p name v term
        → Agrees s.table rule_id v term (pin_fake env o cfg s p req q name iface eff line rule_id v)
    unfolding pin_fake
    pin_fake-Agrees none s p q iface line rule_id v term indexed leased = inr (
        give_fake-IsMapped (record s { fake_ip = some p }) p q line rule_id v term indexed refl
          leased)
    pin_fake-Agrees (some inst) s p q iface line rule_id v term indexed leased =
        let one = inst s.world (env.show_ip (v4 v)) iface cfg.route_ttl_min rule_id in
        elim (Bool-cases one.1) [
          | inl f ↦ rw f (inl (refl, refl))
          | inr f ↦ rw f (
              inr (
                give_fake-IsMapped (record s { fake_ip = some p; world = one.0 }) p q line rule_id v
                  term indexed refl leased))
        ]

    -- A query for a name that goes through proxies, on a server whose mapping table has a right index.
    -- Either the reply has no address and the table is as before, or it has exactly one, which the pool
    -- leases to the name for a full term, and a lookup of that address finds the name with its proxies
    -- and rule until the longer of the route's and the table's lifetime has passed.
    pub handle_fake_ip_lem :
        (s : Server World) (pool : Pool) (q : Question) (iface : Text) (line : Text → Line)
        (rule_id : ℕ)
        → IsIndexed s.table
        → let result = handle_fake_ip env cfg s pool req q name iface eff line rule_id in
          ((answers result.1 ≡ []) × (result.0.table ≡ s.table))
          ⊎ ((v : ℕ) × IsMapped result name
                (n ∷ ns)
                rule_id
                v
                (env.clock s.world + pool.ttl)
                s.table)
    unfolding handle_fake_ip
    handle_fake_ip_lem s pool q iface line rule_id indexed =
        let now = env.clock s.world in
        let (p, got) = allocate pool name now in
        elim (Bool-cases (q.qtype == type_a)) [
          | inr e ↦ rw e (inl (refl, refl))
          | inl e ↦ elim (Option-cases got) [
            | inl g ↦ rw (e, g) (inl (refl, refl))
            | inr (v, g) ↦
                let pinned =
                  pin_fake-Agrees env.install s p q iface line rule_id v (now + pool.ttl) indexed
                    (allocate-IsLeased pool name now v g) in
                rw (e, g) (elim pinned [ inl x ↦ inl x | inr x ↦ inr (v, x) ])
          ]
        ]
