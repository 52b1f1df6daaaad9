-- ===== src/FakeIp/Store.antt =====
-- core/rules/fakeip.go: the table of leases in the database, and core/dnsproxy/fakeip.go's flush, which
-- writes what waits for it. A row is the lease that it holds; two addresses are the same if both
-- parse and are equal, as the texts that the pool writes are. `broken` says of which hosts a write
-- fails; a failed write changes nothing, and flush only logs it.
pub mod Table
pub mod Written
use em_wall.Prelude.{
  ℕ, Bool, true, false, not, ◌&&◌, ◌||◌, Option, none, some, List, [], ◌∷◌, Text, ◌==◌, nat_eq,
  text_eq, ltb, if◌then◌else◌,
}
use em_wall.FakeIp.{StoredLease, Pool}

abbrev pub Rows : Type 0
Rows = List StoredLease

abbrev pub same_ip : Option ℕ → Option ℕ → Bool
same_ip (some a) (some b) = a == b
same_ip _ _ = false

-- ListFakeIPLeases
unfoldable pub list_leases : Rows → ℕ → Rows
list_leases [] now = []
list_leases (r ∷ rows) now =
    let rest = list_leases rows now in if ltb now r.expires_at then r ∷ rest else rest

-- the other hosts at the address are dropped
unfoldable pub drop_address : Option ℕ → Text → Rows → Rows
drop_address ip host [] = []
drop_address ip host (r ∷ rows) =
    let rest = drop_address ip host rows in
    if same_ip r.ip ip && not (r.host == host) then rest else r ∷ rest

-- the row of the host is overwritten, or a new one is made
unfoldable pub upsert : StoredLease → Rows → Rows
upsert l [] = l ∷ []
upsert l (r ∷ rows) = let rest = upsert l rows in if r.host == l.host then l ∷ rows else r ∷ rest

-- PutFakeIPLease. Its refusal of an empty address is left out: a lease here holds an address, and its
-- text is not empty.
unfoldable pub put_lease : (Text → Bool) → StoredLease → Rows → Rows
unfolding drop_address upsert
put_lease broken l rows =
    if l.host == [] || broken l.host then rows else upsert l (drop_address l.ip l.host rows)

unfoldable pub remove_host : Text → Rows → Rows
remove_host host [] = []
remove_host host (r ∷ rows) =
    let rest = remove_host host rows in if r.host == host then rest else r ∷ rest

-- DeleteFakeIPLease
unfoldable pub delete_lease : (Text → Bool) → Text → Rows → Rows
unfolding remove_host
delete_lease broken host rows = if broken host then rows else remove_host host rows

-- DeleteExpiredFakeIPLeases
unfoldable pub delete_expired : Rows → ℕ → Rows
delete_expired [] now = []
delete_expired (r ∷ rows) now =
    let rest = delete_expired rows now in if ltb now r.expires_at then r ∷ rest else rest

abbrev pub Batch : Type 0
Batch = List (Text × Option StoredLease)

-- the two loops of flush
unfoldable pub flush_deletes : (Text → Bool) → Batch → Rows → Rows
unfolding delete_lease
flush_deletes broken [] rows = rows
flush_deletes broken ((h, none) ∷ batch) rows =
    flush_deletes broken batch (delete_lease broken h rows)
flush_deletes broken ((h, some l) ∷ batch) rows = flush_deletes broken batch rows

unfoldable pub flush_puts : (Text → Bool) → Batch → Rows → Rows
unfolding put_lease
flush_puts broken [] rows = rows
flush_puts broken ((h, none) ∷ batch) rows = flush_puts broken batch rows
flush_puts broken ((h, some l) ∷ batch) rows = flush_puts broken batch (put_lease broken l rows)

-- flush
unfoldable pub flush : (Text → Bool) → Pool → Rows → Pool × Rows
unfolding flush_deletes flush_puts
flush broken p rows =
    if p.has_store
    then (
      record p { pending = [] },
      flush_puts broken p.pending (flush_deletes broken p.pending rows),
    )
    else (p, rows)
