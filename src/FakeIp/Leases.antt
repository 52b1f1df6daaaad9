-- ===== src/FakeIp/Leases.antt =====
-- What a caller of Allocate gets, and what it does to the leases of others.
use mathlib.Core.Option
use em_wall.Prelude.{
  ℕ, ◌+◌, ◌≤◌, ◌<◌, ◌≡◌, ◌≢◌, ◌∙◌, refl, Option, none, some, List, [], ◌∷◌, Text, sym, ap, subst,
  nat_eq, text_eq, lookup, lookup-insert, lookup-delete, text_beq_iff, arith, Option-cases, inl,
  inr, All,
}
use em_wall.FakeIp.{
  Pool, bind, drop_lease, slot_addr, find_slot, Grant, grant, take_slot, refresh, allocate_lease,
  allocate, finish,
}
use em_wall.FakeIp.Invariant.{IsValid, IsSlot, find_slot-IsSlot, drop_lease-IsValid}
use em_wall.FakeIp.Allocation.{queue_grant-pending, allocate-IsValid}

finish-pending :
    (host : Text) (q : Pool) (o : Option Grant)
    → (finish host (q, o)).0 ≡ record q { pending = (finish host (q, o)).0.pending }
unfolding finish
finish-pending host q none = refl
finish-pending host q (some g) = queue_grant-pending q host g

finish-ip :
    (host : Text) (q : Pool) (o : Option Grant) → (finish host (q, o)).1 ≡ Option.map (λ g. g.ip) o
unfolding finish
finish-ip host q none = refl
finish-ip host q (some g) = refl

map-eq-some :
    (o : Option Grant) (a : ℕ)
    → Option.map (λ g. g.ip) o ≡ some a
    → (g : Grant) × (o ≡ some g) × (g.ip ≡ a)
map-eq-some none a e = cc
map-eq-some (some g) a e = (g, refl, cc)

-- The lease of `host` is at the address `a` and runs out at `t`.
abbrev pub IsLeased : Pool → Text → ℕ → ℕ → Type 0
IsLeased p host a t =
    (r : ℕ) × (lookup host p.by_host ≡ some r) × ((p.heap r).ip ≡ a) × ((p.heap r).expiry ≡ t)

module _ (p : Pool) (host : Text) (now : ℕ) where
  pub allocate-ip : (allocate p host now).1 ≡ Option.map (λ g. g.ip) (allocate_lease p host now).1
  unfolding allocate
  allocate-ip = let (q, o) = allocate_lease p host now in finish-ip host q o

  through_finish :
      (h : Text) (a t : ℕ)
      → IsLeased (allocate_lease p host now).0 h a t
      → IsLeased (allocate p host now).0 h a t
  unfolding allocate
  through_finish h a t l =
      let (q, o) = allocate_lease p host now in
      subst (λ x. IsLeased x h a t) (sym (finish-pending host q o)) l

  pub known_host :
      (r : ℕ) → lookup host p.by_host ≡ some r → allocate_lease p host now ≡ refresh p host r now
  unfolding allocate_lease
  known_host r e = ground arith

  pub new_host :
      lookup host p.by_host ≡ none
      → allocate_lease p host now ≡ take_slot p host now (find_slot p now p.size 0)
  unfolding allocate_lease
  new_host e = ground arith

  -- A host that has a lease, expired or not, gets its address again, with a new term.
  pub allocate_again :
      (a t : ℕ)
      → IsLeased p host a t
      → ((allocate p host now).1 ≡ some a) × IsLeased (allocate p host now).0 host a (now + p.ttl)
  allocate_again a t (r, e, i, x) = (
    allocate-ip
        ∙ ap (λ x. Option.map (λ g. g.ip) x.1) (known_host r e)
        ∙ unfold refresh in ap some i,
    through_finish host a (now + p.ttl) (
        subst (λ x. IsLeased x.0 host a (now + p.ttl)) (sym (known_host r e))
          (unfold refresh in (r, e, ground arith, ground arith))),
  )

  grant-IsLeased :
      (q : Pool) (off : ℕ) (evicted : Text)
      → IsLeased (grant q host off now evicted).0 host (slot_addr q off) (now + q.ttl)
  unfolding grant bind
  grant-IsLeased q off evicted = (
    q.fresh,
    ground (arith, lookup-insert host host q.fresh q.by_host, text_beq_iff host host),
    ground arith,
    ground arith,
  )

  granted :
      (q : Pool) (off : ℕ) (evicted : Text) (g : Grant)
      → (grant q host off now evicted).1 ≡ some g
      → IsLeased (grant q host off now evicted).0 host g.ip (now + q.ttl)
  granted q off evicted g e =
      let a : slot_addr q off ≡ g.ip = unfold grant in cc (ap (Option.map (λ g. g.ip)) e) in
      subst (λ a. IsLeased (grant q host off now evicted).0 host a (now + q.ttl)) a
        (grant-IsLeased q off evicted)

  take_slot-IsLeased :
      (o : Option (ℕ × Option ℕ)) (g : Grant)
      → (take_slot p host now o).1 ≡ some g
      → IsLeased (take_slot p host now o).0 host g.ip (now + p.ttl)
  unfolding take_slot
  take_slot-IsLeased none g e = cc
  take_slot-IsLeased (some (off, none)) g e = granted p off [] g e
  take_slot-IsLeased (some (off, some r)) g e =
      unfold drop_lease in granted (drop_lease p r (slot_addr p off)) off (p.heap r).host g e

  -- An address that Allocate returns is leased to the host, for the full term from now.
  pub allocate-IsLeased :
      (a : ℕ)
      → (allocate p host now).1 ≡ some a
      → IsLeased (allocate p host now).0 host a (now + p.ttl)
  allocate-IsLeased a e = elim (Option-cases (lookup host p.by_host)) [
    | inr (r, k) ↦
        let (same, leased) = allocate_again (p.heap r).ip (p.heap r).expiry (r, k, refl, refl) in
        subst (λ b. IsLeased (allocate p host now).0 host b (now + p.ttl)) (cc (same, e)) leased
    | inl k ↦ through_finish host a (now + p.ttl) (
        subst (λ x. IsLeased x.0 host a (now + p.ttl)) (sym (new_host k))
          (by_slot (find_slot p now p.size 0)
            (ap (λ x. Option.map (λ g. g.ip) x.1) (sym (new_host k)) ∙ sym allocate-ip ∙ e)))
  ]
    where
      by_slot :
          (o : Option (ℕ × Option ℕ))
          → Option.map (λ g. g.ip) (take_slot p host now o).1 ≡ some a
          → IsLeased (take_slot p host now o).0 host a (now + p.ttl)
      by_slot o f =
          let (g, h, i) = map-eq-some (take_slot p host now o).1 a f in
          subst (λ b. IsLeased (take_slot p host now o).0 host b (now + p.ttl)) i
            (take_slot-IsLeased o g h)

  module _ (v : IsValid p) (j : Text) (other : host ≢ j) (a t : ℕ) (live : now < t) where
    refresh-other :
        (r : ℕ)
        → lookup host p.by_host ≡ some r
        → IsLeased p j a t
        → IsLeased (refresh p host r now).0 j a t
    unfolding refresh
    refresh-other r e (q, f, i, x) =
        let mine = v.host_entry host r e in
        let theirs = v.host_entry j q f in
        let apart : r ≢ q = λ k. other (cc (mine.0, theirs.0, ap p.heap k)) in
        (q, f, ground arith, ground arith)

    grant-other :
        (q : Pool) (off : ℕ) (evicted : Text)
        → IsValid q
        → IsLeased q j a t
        → IsLeased (grant q host off now evicted).0 j a t
    unfolding grant bind
    grant-other q off evicted w (r, e, i, x) =
        let kept = lookup-insert host j q.fresh q.by_host in
        let same = text_beq_iff host j in
        let old = w.host_entry j r e in (r, ground arith, ground arith, ground arith)

    drop-other :
        (addr r : ℕ)
        → lookup addr p.by_ip ≡ some r
        → (p.heap r).expiry ≤ now
        → IsLeased p j a t
        → IsLeased (drop_lease p r addr) j a t
    unfolding drop_lease
    drop-other addr r e dead (q, f, i, x) =
        let entry = v.ip_entry addr r e in
        let kept = lookup-delete (p.heap r).host j p.by_host in
        let same = text_beq_iff (p.heap r).host j in (q, ground arith, i, x)

    take_slot-other :
        (o : Option (ℕ × Option ℕ))
        → IsSlot p now o
        → IsLeased p j a t
        → IsLeased (take_slot p host now o).0 j a t
    unfolding take_slot
    take_slot-other none s l = l
    take_slot-other (some (off, none)) s l = grant-other p off [] v l
    take_slot-other (some (off, some r)) (pos, max, taken, dead) l =
        grant-other (drop_lease p r (slot_addr p off)) off (p.heap r).host
          (drop_lease-IsValid p v _ r taken) (drop-other (slot_addr p off) r taken (dead r refl) l)

    -- In a valid pool, whatever another host is given, a lease that has not run out stays, at its
    -- address and with its term.
    pub allocate-other : IsLeased p j a t → IsLeased (allocate p host now).0 j a t
    allocate-other l = through_finish j a t (elim (Option-cases (lookup host p.by_host)) [
      | inr (r, k) ↦ subst (λ x. IsLeased x.0 j a t) (sym (known_host r k)) (refresh-other r k l)
      | inl k ↦
          subst (λ x. IsLeased x.0 j a t) (sym (new_host k))
            (take_slot-other _ (find_slot-IsSlot p now p.size 0 (let m = v.size_min in omega arith))
              l)
    ])

-- Allocations of other hosts, each at its own time.
pub serve : Pool → List (Text × ℕ) → Pool
serve p [] = p
serve p ((host, now) ∷ queries) = serve (allocate p host now).0 queries

-- In a valid pool a host that has a lease asks again, after any queries of other hosts that were all
-- made before the lease ran out, and gets the address it had.
pub sticky :
    (p : Pool) (queries : List (Text × ℕ)) (j : Text) (a t now : ℕ)
    → IsValid p
    → IsLeased p j a t
    → All (λ q. (q.0 ≢ j) × (q.1 < t)) queries
    → (allocate (serve p queries) j now).1 ≡ some a
unfolding serve
sticky p [] j a t now v l h = (allocate_again p j now a t l).0
sticky p ((host, at) ∷ queries) j a t now v l h =
    sticky (allocate p host at).0 queries j a t now (allocate-IsValid p v host at)
      (allocate-other p host at v j h.0.0 a t h.0.1 l) h.1
