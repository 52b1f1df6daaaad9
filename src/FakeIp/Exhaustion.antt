-- ===== src/FakeIp/Exhaustion.antt =====
-- When Allocate fails, and that no two hosts share an address.
use mathlib.Core.Option
use native.Mathlib.Nat.{mod-eq_of_lt, mod-eq-sub-mod}
use em_wall.Prelude.{
  ℕ, suc, zero, ◌+◌, ◌-◌, ◌%◌, ◌^◌, ◌≤◌, ◌<◌, ◌≡◌, ◌∙◌, ◌↔◌, refl, Option, none, some, Text, sym,
  ap, subst, nat_eq, text_eq, leb, leb→le, if◌then◌else◌, lookup, arith, Option-cases, Bool-cases,
  inl, inr,
}
use em_wall.FakeIp.{Pool, slot_addr, u32, find_slot, slot, grant, take_slot, allocate}
use em_wall.FakeIp.Invariant.{IsValid, IsSlot, find_slot-IsSlot}
use em_wall.FakeIp.Leases.{allocate-ip, allocate_again, new_host, IsLeased}

-- The slot at `off` is leased, and its lease has not run out.
abbrev pub Busy : Pool → ℕ → ℕ → Type 0
Busy p now off = (r : ℕ) × (lookup (slot_addr p off) p.by_ip ≡ some r) × (now < (p.heap r).expiry)

find_slot-Busy :
    (p : Pool) (now n i k : ℕ)
    → find_slot p now n i ≡ none
    → i ≤ k
    → k < i + n
    → 0 < slot p k
    → Busy p now (slot p k)
unfolding find_slot
find_slot-Busy p now zero i k e a b c = absurd (omega arith)
find_slot-Busy p now (suc n) i k e a b c = elim (Bool-cases (leb k i)) [
  | inr more ↦ find_slot-Busy p now n (i + 1) k (ground arith) (ground arith) (ground arith) c
  | inl here ↦
      let k_eq : k ≡ i = ground arith in
      elim (Option-cases (lookup (slot_addr p (slot p i)) p.by_ip)) [
        | inl free ↦ absurd (ground arith)
        | inr (r, taken) ↦ (r, rw k_eq taken, ground arith)
      ]
]

take_slot-none :
    (p : Pool) (host : Text) (now : ℕ) (o : Option (ℕ × Option ℕ))
    → Option.map (λ g. g.ip) (take_slot p host now o).1 ≡ none
    → o ≡ none
unfolding take_slot grant
take_slot-none p host now none e = refl
take_slot-none p host now (some (off, none)) e = cc
take_slot-none p host now (some (off, some r)) e = cc

ahead : (c o s : ℕ) → c ≤ o → o < s → s ≤ 2 ^ 31 → u32 (c + (o - c)) % s ≡ o
ahead c o s a b m = let e : u32 (c + (o - c)) ≡ o = omega arith in rw e (mod-eq_of_lt b)

behind : (c o s : ℕ) → o < c → c < s → s ≤ 2 ^ 31 → u32 (c + (o + s - c)) % s ≡ o
behind c o s a b m =
    let e : u32 (c + (o + s - c)) ≡ o + s = omega arith in
    rw e (grind (arith, mod-eq-sub-mod, mod-eq_of_lt))

module _ (p : Pool) (v : IsValid p) where
  round : ℕ → ℕ
  round off = if leb p.cursor off then off - p.cursor else off + p.size - p.cursor

  -- Every offset of the block is the slot of one round of the scan.
  slot-round : (off : ℕ) → off < p.size → (slot p (round off) ≡ off) × (round off < p.size)
  unfolding round
  slot-round off h =
      let c = v.cursor_in in
      elim (Bool-cases (leb p.cursor off)) [
        | inl e ↦ rw e (ahead p.cursor off p.size (leb→le _ _ e) h v.size_max, omega arith)
        | inr e ↦ rw e (behind p.cursor off p.size (ground arith) c v.size_max, ground arith)
      ]

  every_slot-Busy :
      (now : ℕ)
      → find_slot p now p.size 0 ≡ none
      → (off : ℕ) → 0 < off
      → off < p.size
      → Busy p now off
  every_slot-Busy now e off a b =
      let (s, m) = slot-round off b in
      subst (Busy p now) s
        (find_slot-Busy p now p.size 0 (round off) e (omega arith) (omega arith) (rw s a))

  none_free :
      (now : ℕ) (o : Option (ℕ × Option ℕ))
      → IsSlot p now o
      → ((off : ℕ) → 0 < off → off < p.size → Busy p now off)
      → o ≡ none
  none_free now none s busy = refl
  none_free now (some (off, o)) (pos, max, taken, dead) busy =
      let (r, e, live) = busy off pos max in
      let late = dead r (sym taken ∙ e) in absurd (omega arith)

  -- In a valid pool, two hosts with a lease have different addresses: whoever holds the same
  -- address is the same host.
  pub address_unique : (h j : Text) (a t u : ℕ) → IsLeased p h a t → IsLeased p j a u → h ≡ j
  address_unique h j a t u (r, e, i, x) (q, f, k, y) =
      let mine = v.host_entry h r e in
      let theirs = v.host_entry j q f in
      let same : some r ≡ some q =
        cc (mine.1, theirs.1, ap (λ b. lookup b p.by_ip) i, ap (λ b. lookup b p.by_ip) k) in
      cc (same, mine.0, theirs.0)

  size_pos : 0 < p.size
  size_pos = let m = v.size_min in omega arith

  by_slot :
      (host : Text) (now : ℕ)
      → lookup host p.by_host ≡ none
      → (allocate p host now).1
        ≡ Option.map (λ g. g.ip) (take_slot p host now (find_slot p now p.size 0)).1
  by_slot host now k =
      allocate-ip p host now ∙ ap (λ x. Option.map (λ g. g.ip) x.1) (new_host p host now k)

  -- In a valid pool, Allocate fails exactly when the host has no lease and every slot of the block
  -- but the first holds a lease that has not run out.
  pub allocate_fails_iff :
      (host : Text) (now : ℕ)
      → ((allocate p host now).1 ≡ none)
        ↔ ((lookup host p.by_host ≡ none) × ((off : ℕ) → 0 < off → off < p.size → Busy p now off))
  allocate_fails_iff host now = (
    λ e. elim (Option-cases (lookup host p.by_host)) [
      | inr (r, k) ↦
          cc (e, (allocate_again p host now (p.heap r).ip (p.heap r).expiry (r, k, refl, refl)).0)
      | inl k ↦
          (k, every_slot-Busy now (take_slot-none p host now _ (sym (by_slot host now k) ∙ e)))
    ],
    λ (k, busy).
        by_slot host now k
        ∙ ap (λ o. Option.map (λ g. g.ip) (take_slot p host now o).1)
            (none_free now (find_slot p now p.size 0) (find_slot-IsSlot p now p.size 0 size_pos)
              busy)
        ∙ unfold take_slot in refl,
  )
