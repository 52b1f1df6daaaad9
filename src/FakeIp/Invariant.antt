-- ===== src/FakeIp/Invariant.antt =====
-- What holds of a pool between two operations.
use em_wall.Prelude.{
  ℕ, suc, zero, ◌+◌, ◌^◌, ◌≤◌, ◌<◌, ◌≡◌, Option, none, some, List, Text, ◌==◌, nat_eq, text_eq, ltb,
  lookup, lookup-insert, lookup-delete, text_beq_iff, arith, Option-cases, Bool-cases, inl, inr,
}
use em_wall.FakeIp.{Pool, bind, drop_lease, slot_addr, find_slot, slot, refresh, StoredLease}

-- The two maps are inverse to one another through the leases, and every leased address is in the
-- block and not its first.
pub record IsValid (p : Pool) : Type 0 where
  pub size_min : 2 ≤ p.size
  pub size_max : p.size ≤ 2 ^ 31
  pub block : p.base + p.size ≤ 2 ^ 32
  pub cursor_in : p.cursor < p.size
  pub host_entry :
      (h : Text) (r : ℕ)
      → lookup h p.by_host ≡ some r
      → ((p.heap r).host ≡ h) × (lookup (p.heap r).ip p.by_ip ≡ some r) × (r < p.fresh)
  pub ip_entry :
      (a r : ℕ)
      → lookup a p.by_ip ≡ some r
      → ((p.heap r).ip ≡ a)
        × (lookup (p.heap r).host p.by_host ≡ some r)
        × (p.base < a)
        × (a < p.base + p.size)

module _ (p : Pool) (v : IsValid p) (host : Text) (off now : ℕ) (off_pos : 0 < off)
    (off_max : off < p.size) (new_host : lookup host p.by_host ≡ none)
    (new_ip : lookup (slot_addr p off) p.by_ip ≡ none) where
  pub slot_addr_lem : slot_addr p off ≡ p.base + off
  slot_addr_lem = let b = v.block in omega arith

  pub bind-IsValid : IsValid (bind p host off now)
  unfolding bind
  bind-IsValid = record {
    size_min = v.size_min;
    size_max = v.size_max;
    block = v.block;
    cursor_in = let m = v.size_min in grind arith;
    host_entry = λ h r e.
        let old = lookup-insert host h p.fresh p.by_host in
        let same = text_beq_iff host h in
        let kept = v.host_entry h r in
        let new = lookup-insert (slot_addr p off) (slot_addr p off) p.fresh p.by_ip in
        let moved = lookup-insert (slot_addr p off) (p.heap r).ip p.fresh p.by_ip in ground arith;
    ip_entry = λ a r e.
        let old = lookup-insert (slot_addr p off) a p.fresh p.by_ip in
        let kept = v.ip_entry a r in
        let bound = v.host_entry (p.heap r).host r in
        let same = text_beq_iff host (p.heap r).host in
        let self = text_beq_iff host host in
        let new = lookup-insert host host p.fresh p.by_host in
        let moved = lookup-insert host (p.heap r).host p.fresh p.by_host in
        let addr = slot_addr_lem in ground arith;
  }

module _ (p : Pool) (v : IsValid p) where
  pub drop_lease-IsValid : (a r : ℕ) → lookup a p.by_ip ≡ some r → IsValid (drop_lease p r a)
  unfolding drop_lease
  drop_lease-IsValid a r e =
      let gone = v.ip_entry a r e in
      record {
        size_min = v.size_min;
        size_max = v.size_max;
        block = v.block;
        cursor_in = v.cursor_in;
        host_entry = λ h q f.
            let old = lookup-delete (p.heap r).host h p.by_host in
            let same = text_beq_iff (p.heap r).host h in
            let kept = v.host_entry h q in
            let moved = lookup-delete a (p.heap q).ip p.by_ip in
            let other = v.ip_entry (p.heap q).ip q in ground arith;
        ip_entry = λ b q f.
            let old = lookup-delete a b p.by_ip in
            let kept = v.ip_entry b q in
            let same = text_beq_iff (p.heap r).host (p.heap q).host in
            let moved = lookup-delete (p.heap r).host (p.heap q).host p.by_host in ground arith;
      }

  pub refresh-IsValid :
      (host : Text) (r now : ℕ) → lookup host p.by_host ≡ some r → IsValid (refresh p host r now).0
  unfolding refresh
  refresh-IsValid host r now e = record {
    size_min = v.size_min;
    size_max = v.size_max;
    block = v.block;
    cursor_in = v.cursor_in;
    host_entry = λ h q f. let kept = v.host_entry h q f in ground arith;
    ip_entry = λ b q f. let kept = v.ip_entry b q f in ground arith;
  }

  pub pending-IsValid : (w : List (Text × Option StoredLease)) → IsValid (record p { pending = w })
  pending-IsValid w = record {
    size_min = v.size_min;
    size_max = v.size_max;
    block = v.block;
    cursor_in = v.cursor_in;
    host_entry = v.host_entry;
    ip_entry = v.ip_entry;
  }

-- What the scan found: an offset of the block that is not its first, and the lease that stands
-- there, which has expired.
abbrev pub IsSlot : Pool → ℕ → Option (ℕ × Option ℕ) → Type 0
IsSlot p now none = Unit
IsSlot p now (some (off, o)) =
    (0 < off)
    × (off < p.size)
    × (lookup (slot_addr p off) p.by_ip ≡ o)
    × ((r : ℕ) → o ≡ some r → (p.heap r).expiry ≤ now)

pub find_slot-IsSlot : (p : Pool) (now n i : ℕ) → 0 < p.size → IsSlot p now (find_slot p now n i)
unfolding find_slot
find_slot-IsSlot p now zero i h = tt
find_slot-IsSlot p now (suc n) i h = elim (Bool-cases (slot p i == 0)) [
  | inl z ↦ rw z (find_slot-IsSlot p now n (i + 1) h)
  | inr z ↦ elim (Option-cases (lookup (slot_addr p (slot p i)) p.by_ip)) [
    | inl e ↦ rw (z, e) (ground arith, grind arith, e, λ r f. cc)
    | inr (r, e) ↦ elim (Bool-cases (ltb now (p.heap r).expiry)) [
      | inl live ↦ rw (z, e, live) (find_slot-IsSlot p now n (i + 1) h)
      | inr dead ↦ rw (z, e, dead) (ground arith, grind arith, e, λ q f. ground arith)
    ]
  ]
]
