-- ===== src/FakeIp/Allocation.antt =====
-- What Allocate, Release and restore keep and promise.
use em_wall.Prelude.{
  ℕ, ◌<◌, ◌≡◌, Option, none, some, Text, sym, subst, nat_eq, text_eq, lookup, lookup-delete, arith,
  Option-cases, inl, inr,
}
use em_wall.FakeIp.{
  Pool, drop_lease, slot_addr, Grant, take_slot, allocate_lease, allocate, queue_grant, finish,
}
use em_wall.FakeIp.Invariant.{
  IsValid, IsSlot, find_slot-IsSlot, bind-IsValid, drop_lease-IsValid, refresh-IsValid,
  pending-IsValid,
}

-- Queueing writes changes the queue alone.
pub queue_grant-pending :
    (p : Pool) (host : Text) (g : Grant)
    → queue_grant p host g ≡ record p { pending = (queue_grant p host g).pending }
unfolding queue_grant
queue_grant-pending p host g = ground arith

finish-IsValid :
    (host : Text) (q : Pool) (o : Option Grant) → IsValid q → IsValid (finish host (q, o)).0
unfolding finish
finish-IsValid host q none v = v
finish-IsValid host q (some g) v =
    subst IsValid (sym (queue_grant-pending q host g)) (pending-IsValid q v _)

module _ (p : Pool) (v : IsValid p) (host : Text) (now : ℕ) where
  size_pos : 0 < p.size
  size_pos = let m = v.size_min in omega arith

  -- After the lease at a reclaimed address is gone, neither map has the new binding's keys.
  take_slot-IsValid :
      lookup host p.by_host ≡ none
      → (o : Option (ℕ × Option ℕ)) → IsSlot p now o
      → IsValid (take_slot p host now o).0
  unfolding take_slot drop_lease
  take_slot-IsValid absent none s = v
  take_slot-IsValid absent (some (off, none)) (pos, max, free, dead) =
      bind-IsValid p v host off now pos max absent free
  take_slot-IsValid absent (some (off, some r)) (pos, max, taken, dead) =
      bind-IsValid (drop_lease p r (slot_addr p off)) (drop_lease-IsValid p v _ r taken) host off
        now pos max (ground (arith, lookup-delete (p.heap r).host host p.by_host))
        (ground (arith, lookup-delete (slot_addr p off) (slot_addr p off) p.by_ip))

  allocate_lease-IsValid : IsValid (allocate_lease p host now).0
  unfolding allocate_lease
  allocate_lease-IsValid = elim (Option-cases (lookup host p.by_host)) [
    | inl e ↦
        rw (e, allocate_lease) (take_slot-IsValid e _ (find_slot-IsSlot p now p.size 0 size_pos))
    | inr (r, e) ↦ rw (e, allocate_lease) (refresh-IsValid p v host r now e)
  ]

  -- Allocate keeps a valid pool valid: the two maps are inverse to one another, with every address
  -- inside the block and not its first.
  pub allocate-IsValid : IsValid (allocate p host now).0
  unfolding allocate
  allocate-IsValid =
      finish-IsValid host (allocate_lease p host now).0 (allocate_lease p host now).1
        allocate_lease-IsValid
