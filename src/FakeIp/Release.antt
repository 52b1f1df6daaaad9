-- ===== src/FakeIp/Release.antt =====
-- Release.
use em_wall.Prelude.{
  ℕ, ◌≡◌, ◌≢◌, ◌∙◌, none, some, Text, sym, ap, subst, nat_eq, text_eq, lookup, lookup-delete,
  text_beq_iff, arith, Option-cases, inl, inr,
}
use em_wall.FakeIp.{Pool, release, queue, drop_lease}
use em_wall.FakeIp.Invariant.{IsValid, drop_lease-IsValid, pending-IsValid}
use em_wall.FakeIp.Leases.{IsLeased}

release-pending :
    (p : Pool) (host : Text) (r : ℕ)
    → lookup host p.by_host ≡ some r
    → (p.heap r).host ≡ host
    → release p host ≡ record (drop_lease p r (p.heap r).ip) { pending = (release p host).pending }
unfolding release drop_lease queue
release-pending p host r e h = ground arith

-- Release keeps the pool valid, takes the lease of its host alone, and leaves the leases of all
-- others.
pub release_lem :
    (p : Pool) (host : Text)
    → IsValid p
    → IsValid (release p host)
      × (lookup host (release p host).by_host ≡ none)
      × ((j : Text) (a t : ℕ) → host ≢ j → IsLeased p j a t → IsLeased (release p host) j a t)
release_lem p host v = elim (Option-cases (lookup host p.by_host)) [
  | inl e ↦
      let same : release p host ≡ p = unfold release in ground arith in
      (
        subst IsValid (sym same) v,
        ap (λ q. lookup host q.by_host) same ∙ e,
        λ j a t other l. subst (λ q. IsLeased q j a t) (sym same) l,
      )
  | inr (r, e) ↦
      let entry = v.host_entry host r e in
      let same = release-pending p host r e entry.0 in
      let gone = lookup-delete (p.heap r).host host p.by_host in
      let self = text_beq_iff (p.heap r).host host in
      (
        subst IsValid (sym same)
            (pending-IsValid _ (drop_lease-IsValid p v (p.heap r).ip r entry.1) _),
        ap (λ q. lookup host q.by_host) same ∙ unfold drop_lease in ground arith,
        λ j a t other (q, f, i, x).
            let kept = lookup-delete (p.heap r).host j p.by_host in
            let apart = text_beq_iff (p.heap r).host j in
            subst (λ q. IsLeased q j a t) (sym same) (unfold drop_lease in (q, ground arith, i, x)),
      )
]
