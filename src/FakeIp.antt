-- ===== src/FakeIp.antt =====
-- core/dnsproxy/fakeip.go: the pool of synthetic addresses. A lease is an object that both maps of
-- the pool point to, so it lives in a heap and the maps hold references. Addresses are uint32
-- numbers; times and durations are nanoseconds, and 0 is the zero time. The locks, the logger and
-- the writer's goroutine are left out: an operation is atomic, as the mutex makes it.
pub mod Invariant
pub mod Allocation
pub mod Leases
pub mod Exhaustion
pub mod Release
pub mod Rows
pub mod Restart
pub mod Store
use em_wall.Prelude.{
  ℕ, suc, zero, ◌+◌, ◌-◌, ◌/◌, ◌%◌, ◌^◌, Bool, true, false, not, ◌&&◌, ◌||◌, Option, none, some,
  List, [], ◌∷◌, Text, ◌==◌, nat_eq, text_eq, ltb, leb, if◌then◌else◌, lookup, insert, delete,
  text_beq,
}
use em_wall.Net.{IpNet, Ip, v4, v6}

pub record Lease : Type 0 where
  pub ip : ℕ
  pub host : Text
  pub expiry : ℕ
  pub stored : ℕ

-- FakeIPLease, the persisted form. Its address text is what ParseIP and To4 make of it.
pub record StoredLease : Type 0 where
  pub host : Text
  pub ip : Option ℕ
  pub expires_at : ℕ

pub record Pool : Type 0 where
  pub base : ℕ
  pub size : ℕ
  pub cursor : ℕ
  pub ttl : ℕ
  pub by_host : List (Text × ℕ)
  pub by_ip : List (ℕ × ℕ)
  -- the leases that the maps point to, and the next reference
  pub heap : ℕ → Lease
  pub fresh : ℕ
  -- whether there is a store, and the writes that wait for it (none is a deletion)
  pub has_store : Bool
  pub pending : List (Text × Option StoredLease)

abbrev pub u32 : ℕ → ℕ
u32 n = n % 2 ^ 32

abbrev pub default_lease_ttl : ℕ
default_lease_ttl = 604800000000000

abbrev pub persist_refresh_fraction : ℕ
persist_refresh_fraction = 4

pub data PoolError : Type 0 where
  bad_cidr not_ipv4 too_small : PoolError

pub data NewPool : Type 0 where
  made : Pool → NewPool
  refused : PoolError → NewPool

no_lease : Lease
no_lease = record { ip = 0; host = []; expiry = 0; stored = 0 }

new_block : ℕ → ℕ → ℕ → Bool → NewPool
unfolding no_lease
new_block base free_bits ttl has_store =
    let size = u32 (2 ^ free_bits) in
    if ltb size 2
    then refused too_small
    else made (record {
      base = base;
      size = size;
      cursor = 0;
      ttl = if ttl == 0 then default_lease_ttl else ttl;
      by_host = [];
      by_ip = [];
      heap = λ r. no_lease;
      fresh = 0;
      has_store = has_store;
      pending = [];
    })

new_family : Ip → ℕ → ℕ → Bool → NewPool
unfolding new_block
new_family (v4 base) free_bits ttl has_store = new_block base free_bits ttl has_store
new_family (v6 a) free_bits ttl has_store = refused not_ipv4

-- newFakeIPPool; `cidr` is what ParseCIDR made of the text. A negative duration is taken for 0.
unfoldable pub new_pool : Option IpNet → ℕ → Bool → NewPool
unfolding new_family
new_pool none ttl has_store = refused bad_cidr
new_pool (some n) ttl has_store = new_family n.ip n.free_bits ttl has_store

abbrev pub write : (ℕ → Lease) → ℕ → Lease → ℕ → Lease
write heap r l k = if r == k then l else heap k

-- The slot of round `i` of the scan.
abbrev pub slot : Pool → ℕ → ℕ
slot p i = u32 (p.cursor + i) % p.size

abbrev pub slot_addr : Pool → ℕ → ℕ
slot_addr p off = u32 (p.base + off)

-- The scan of allocate: the first offset that is free, or whose lease has expired, and that lease.
pub find_slot : Pool → ℕ → ℕ → ℕ → Option (ℕ × Option ℕ)
unfolding lookup
find_slot p now zero i = none
find_slot p now (suc n) i =
    let rest = find_slot p now n (i + 1) in
    if slot p i == 0 then rest else elim (lookup (slot_addr p (slot p i)) p.by_ip) [
      | some r ↦ if ltb now (p.heap r).expiry then rest else some (slot p i, some r)
      | none ↦ some (slot p i, none)
    ]

-- delete(p.byHost, l.host); delete(p.byIP, addr)
pub drop_lease : Pool → ℕ → ℕ → Pool
unfolding delete
drop_lease p r addr = record p {
  by_host = delete (p.heap r).host p.by_host;
  by_ip = delete addr p.by_ip;
}

-- the new lease in both maps, and the cursor past it
pub bind : Pool → Text → ℕ → ℕ → Pool
unfolding insert
bind p host off now = record p {
  by_host = insert host p.fresh p.by_host;
  by_ip = insert (slot_addr p off) p.fresh p.by_ip;
  heap =
      write p.heap p.fresh
        (record { ip = slot_addr p off; host = host; expiry = now + p.ttl; stored = now + p.ttl });
  fresh = p.fresh + 1;
  cursor = u32 (off + 1) % p.size;
}

-- What allocate returns but for `ok`; no evicted host is the empty text.
pub record Grant : Type 0 where
  pub ip : ℕ
  pub evicted : Text
  pub persist : Option StoredLease

pub refresh : Pool → Text → ℕ → ℕ → Pool × Option Grant
refresh p host r now =
    let l = p.heap r in
    let expiry = now + p.ttl in
    let drifted = l.stored == 0 || ltb (l.stored + p.ttl / persist_refresh_fraction) expiry in
    (
      record p {
        heap =
            write p.heap r
              (record l { expiry = expiry; stored = if drifted then expiry else l.stored });
      },
      some (record {
        ip = l.ip;
        evicted = [];
        persist =
            if drifted
            then some (record { host = host; ip = some l.ip; expires_at = expiry })
            else none;
      }),
    )

pub grant : Pool → Text → ℕ → ℕ → Text → Pool × Option Grant
unfolding bind
grant p host off now evicted = (
  bind p host off now,
  some (record {
    ip = slot_addr p off;
    evicted = evicted;
    persist = some (record { host = host; ip = some (slot_addr p off); expires_at = now + p.ttl });
  }),
)

pub take_slot : Pool → Text → ℕ → Option (ℕ × Option ℕ) → Pool × Option Grant
unfolding grant drop_lease
take_slot p host now none = (p, none)
take_slot p host now (some (off, none)) = grant p host off now []
take_slot p host now (some (off, some r)) =
    grant (drop_lease p r (slot_addr p off)) host off now (p.heap r).host

-- allocate, in memory
pub allocate_lease : Pool → Text → ℕ → Pool × Option Grant
unfolding lookup refresh find_slot take_slot
allocate_lease p host now = elim (lookup host p.by_host) [
  | some r ↦ refresh p host r now
  | none ↦ take_slot p host now (find_slot p now p.size 0)
]

unfoldable pub queue : Pool → Text → Option StoredLease → Pool
unfolding insert
queue p host lease = record p { pending = insert host lease p.pending }

-- the writes that Allocate leaves for the store
pub queue_grant : Pool → Text → Grant → Pool
unfolding queue
queue_grant p host g =
    let q = if not (g.evicted == []) then queue p g.evicted none else p in
    if p.has_store then elim g.persist [ some l ↦ queue q host (some l) | none ↦ q ] else p

pub finish : Text → Pool × Option Grant → Pool × Option ℕ
unfolding queue_grant
finish host (p, none) = (p, none)
finish host (p, some g) = (queue_grant p host g, some g.ip)

-- Allocate
unfoldable pub allocate : Pool → Text → ℕ → Pool × Option ℕ
unfolding allocate_lease finish
allocate p host now = finish host (allocate_lease p host now)

-- Release
unfoldable pub release : Pool → Text → Pool
unfolding lookup delete queue
release p host = elim (lookup host p.by_host) [
  | none ↦ p
  | some r ↦
      let q = record p { by_host = delete host p.by_host; by_ip = delete (p.heap r).ip p.by_ip } in
      if p.has_store then queue q host none else q
]

-- The variables of the loop of restore.
pub record Restoring : Type 0 where
  pub pool : Pool
  pub max_off : ℕ
  pub dropped : ℕ

pub drop_row : Restoring → Restoring
drop_row s = record s { dropped = s.dropped + 1 }

pub keep_row : Restoring → StoredLease → ℕ → Restoring
unfolding insert
keep_row s l v = record s {
  pool = record s.pool {
    by_host = insert l.host s.pool.fresh s.pool.by_host;
    by_ip = insert v s.pool.fresh s.pool.by_ip;
    heap =
        write s.pool.heap s.pool.fresh
          (record { ip = v; host = l.host; expiry = l.expires_at; stored = l.expires_at });
    fresh = s.pool.fresh + 1;
  };
  max_off = if ltb s.max_off (v - s.pool.base) then v - s.pool.base else s.max_off;
}

pub restore_row : Restoring → StoredLease → Restoring
unfolding lookup drop_row keep_row
restore_row s l = elim l.ip [
  | none ↦ drop_row s
  | some v ↦
      if ltb v s.pool.base
      then drop_row s
      else if (v - s.pool.base) == 0 || leb s.pool.size (v - s.pool.base)
      then drop_row s
      else elim (lookup v s.pool.by_ip) [ some r ↦ drop_row s | none ↦ keep_row s l v ]
]

pub restore_rows : Restoring → List StoredLease → Restoring
restore_rows s [] = s
restore_rows s (l ∷ ls) = restore_rows (restore_row s l) ls

-- restore, with the rows that the store listed; none is a store that failed. The sweep of the
-- store's expired rows, which follows, does not touch the pool.
unfoldable pub restore : Pool → Option (List StoredLease) → Pool
unfolding restore_row restore_rows
restore p none = p
restore p (some leases) =
    let s = restore_rows (record { pool = p; max_off = 0; dropped = 0 }) leases in
    if p.has_store then record s.pool { cursor = u32 (s.max_off + 1) % p.size } else p
