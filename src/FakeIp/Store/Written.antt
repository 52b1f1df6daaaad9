-- ===== src/FakeIp/Store/Written.antt =====
-- What a flush leaves in the table.
use em_wall.Prelude.{
  ℕ, ◌≡◌, ◌≢◌, ◌∙◌, refl, sym, ap, subst, Bool, true, false, ◌||◌, Option, none, some, [], ◌∷◌,
  Text, ◌==◌, nat_eq, text_eq, text_beq_iff, lookup, IsMap, if◌then◌else◌, arith, Bool-cases,
  Option-cases, inl, inr,
}
use em_wall.FakeIp.{StoredLease, Pool}
use em_wall.FakeIp.Store.{
  Rows, same_ip, drop_address, put_lease, delete_lease, Batch, flush_deletes, flush_puts, flush,
}
use em_wall.FakeIp.Store.Table.{
  find_row, unless_ip, IsTable, find_row-remove_host, find_row-drop_address, find_row-upsert,
  remove_host-IsTable, drop_address-IsTable, upsert-IsTable,
}

-- Every write is made.
abbrev pub NoneBroken : (Text → Bool) → Type 0
NoneBroken broken = (h : Text) → broken h ≡ false

module _ (broken : Text → Bool) (works : NoneBroken broken) where
  find_row-put_lease :
      (l : StoredLease) (k : Text) (rows : Rows)
      → l.host ≢ []
      → IsTable rows
      → find_row k (put_lease broken l rows)
        ≡ (if l.host == k then some l else unless_ip l.ip (find_row k rows))
  unfolding put_lease
  find_row-put_lease l k rows named t =
      let w = works l.host in
      let has_name = text_beq_iff l.host [] in
      let put = find_row-upsert l k (drop_address l.ip l.host rows) in
      let dropped = find_row-drop_address l.ip l.host k rows t in ground arith

  put_lease-IsTable :
      (l : StoredLease) (rows : Rows) → IsTable rows → IsTable (put_lease broken l rows)
  unfolding put_lease
  put_lease-IsTable l rows t =
      let put =
        upsert-IsTable l (drop_address l.ip l.host rows)
          (drop_address-IsTable l.ip l.host rows t) in
      ground arith

  find_row-delete_lease :
      (h k : Text) (rows : Rows)
      → find_row k (delete_lease broken h rows) ≡ (if h == k then none else find_row k rows)
  unfolding delete_lease
  find_row-delete_lease h k rows = let w = works h in ground (arith, find_row-remove_host h k rows)

  delete_lease-IsTable :
      (h : Text) (rows : Rows) → IsTable rows → IsTable (delete_lease broken h rows)
  unfolding delete_lease
  delete_lease-IsTable h rows t = ground (arith, remove_host-IsTable h rows t)

  flush_deletes-IsTable :
      (batch : Batch) (rows : Rows) → IsTable rows → IsTable (flush_deletes broken batch rows)
  unfolding flush_deletes
  flush_deletes-IsTable [] rows t = t
  flush_deletes-IsTable ((h, none) ∷ batch) rows t =
      flush_deletes-IsTable batch (delete_lease broken h rows) (delete_lease-IsTable h rows t)
  flush_deletes-IsTable ((h, some l) ∷ batch) rows t = flush_deletes-IsTable batch rows t

  -- What waits for a host: a deletion takes its row.
  abbrev unless_deleted : Option (Option StoredLease) → Option StoredLease → Option StoredLease
  unless_deleted (some none) r = none
  unless_deleted _ r = r

  find_row-flush_deletes :
      (batch : Batch) (k : Text) (rows : Rows)
      → IsMap batch
      → find_row k (flush_deletes broken batch rows)
        ≡ unless_deleted (lookup k batch) (find_row k rows)
  unfolding flush_deletes lookup
  find_row-flush_deletes [] k rows m = refl
  find_row-flush_deletes ((h, none) ∷ batch) k rows m =
      let once = m.0 in
      let here_ = find_row-delete_lease h k rows in
      let rest = find_row-flush_deletes batch k (delete_lease broken h rows) m.1 in
      elim (Bool-cases (h == k)) [
        | inl same ↦
            let gone = subst (λ j. lookup j batch ≡ none) ((text_beq_iff h k).0 same) once in
            rest ∙ rw (gone, same) (here_ ∙ rw same refl)
        | inr other ↦ rest ∙ rw other (ap (unless_deleted (lookup k batch)) (here_ ∙ rw other refl))
      ]
  find_row-flush_deletes ((h, some l) ∷ batch) k rows m =
      let once = m.0 in
      let rest = find_row-flush_deletes batch k rows m.1 in
      elim (Bool-cases (h == k)) [
        | inl same ↦
            let gone = subst (λ j. lookup j batch ≡ none) ((text_beq_iff h k).0 same) once in
            rest ∙ rw (gone, same) refl
        | inr other ↦ rest ∙ rw other refl
      ]

-- Some put of the batch is for this address.
abbrev pub takes : Option ℕ → Batch → Bool
takes ip [] = false
takes ip ((h, none) ∷ batch) = takes ip batch
takes ip ((h, some l) ∷ batch) = same_ip ip l.ip || takes ip batch

abbrev pub unless_taken : Batch → Option StoredLease → Option StoredLease
unless_taken batch none = none
unless_taken batch (some r) = if takes r.ip batch then none else some r

-- The leases that wait stand under their hosts, which have names, and no two have one address.
abbrev pub IsBatch : Batch → Type 0
IsBatch [] = Unit
IsBatch ((h, none) ∷ batch) = IsBatch batch
IsBatch ((h, some l) ∷ batch) = (l.host ≡ h) × (h ≢ []) × (takes l.ip batch ≡ false) × IsBatch batch

abbrev has_put : Text → Batch → Bool
has_put k [] = false
has_put k ((h, none) ∷ batch) = has_put k batch
has_put k ((h, some l) ∷ batch) = h == k || has_put k batch

abbrev is_put : Option (Option StoredLease) → Bool
is_put (some (some l)) = true
is_put _ = false

unless_taken-cons :
    (h : Text) (l : StoredLease) (batch : Batch) (o : Option StoredLease)
    → unless_taken batch (unless_ip l.ip o) ≡ unless_taken ((h, some l) ∷ batch) o
unless_taken-cons h l batch none = refl
unless_taken-cons h l batch (some r) = ground arith

unless_taken-none :
    (h : Text) (batch : Batch) (o : Option StoredLease)
    → unless_taken batch o ≡ unless_taken ((h, none) ∷ batch) o
unless_taken-none h batch none = refl
unless_taken-none h batch (some r) = refl

has_put-lookup :
    (k : Text) (batch : Batch) → IsMap batch → has_put k batch ≡ is_put (lookup k batch)
unfolding lookup
has_put-lookup k [] m = refl
has_put-lookup k ((h, none) ∷ batch) m =
    let ih = has_put-lookup k batch m.1 in
    elim (Bool-cases (h == k)) [
      | inl same ↦
          let gone = subst (λ i. lookup i batch ≡ none) ((text_beq_iff h k).0 same) m.0 in
          ih ∙ rw (gone, same) refl
      | inr other ↦ ih ∙ rw other refl
    ]
has_put-lookup k ((h, some l) ∷ batch) m =
    let ih = has_put-lookup k batch m.1 in
    elim (Bool-cases (h == k)) [ inl same ↦ rw same refl | inr other ↦ rw other ih ]

unless_taken-nil : (o : Option StoredLease) → unless_taken [] o ≡ o
unless_taken-nil none = refl
unless_taken-nil (some r) = refl

module _ (broken : Text → Bool) (works : NoneBroken broken) where
  flush_puts-IsTable :
      (batch : Batch) (rows : Rows) → IsTable rows → IsTable (flush_puts broken batch rows)
  unfolding flush_puts
  flush_puts-IsTable [] rows t = t
  flush_puts-IsTable ((h, none) ∷ batch) rows t = flush_puts-IsTable batch rows t
  flush_puts-IsTable ((h, some l) ∷ batch) rows t =
      flush_puts-IsTable batch (put_lease broken l rows) (put_lease-IsTable broken works l rows t)

  find_row-other :
      (batch : Batch) (k : Text) (rows : Rows)
      → IsBatch batch
      → IsTable rows
      → has_put k batch ≡ false
      → find_row k (flush_puts broken batch rows) ≡ unless_taken batch (find_row k rows)
  unfolding flush_puts
  find_row-other [] k rows b t h = sym (unless_taken-nil (find_row k rows))
  find_row-other ((j, none) ∷ batch) k rows b t h =
      find_row-other batch k rows b t h ∙ unless_taken-none j batch (find_row k rows)
  find_row-other ((j, some l) ∷ batch) k rows b t h =
      let named : l.host ≢ [] = λ e. b.1 (sym b.0 ∙ e) in
      let elsewhere : (l.host == k) ≡ false =
        subst (λ i. (i == k) ≡ false) (sym b.0) (ground arith) in
      find_row-other batch k (put_lease broken l rows) b.3 (put_lease-IsTable broken works l rows t)
        (ground arith)
      ∙ ap (unless_taken batch)
          (find_row-put_lease broken works l k rows named t ∙ rw elsewhere refl)
      ∙ unless_taken-cons j l batch (find_row k rows)

  find_row-put :
      (batch : Batch) (k : Text) (l : StoredLease) (rows : Rows)
      → IsMap batch
      → IsBatch batch
      → IsTable rows
      → lookup k batch ≡ some (some l)
      → find_row k (flush_puts broken batch rows) ≡ some l
  unfolding flush_puts lookup
  find_row-put [] k l rows m b t at = cc
  find_row-put ((j, none) ∷ batch) k l rows m b t at = elim (Bool-cases (j == k)) [
    | inl same ↦ let found = rw same at at in cc
    | inr other ↦ find_row-put batch k l rows m.1 b t (rw other at at)
  ]
  find_row-put ((j, some q) ∷ batch) k l rows m b t at =
      let named : q.host ≢ [] = λ e. b.1 (sym b.0 ∙ e) in
      let table = put_lease-IsTable broken works q rows t in
      elim (Bool-cases (j == k)) [
        | inl same ↦
            let found : some (some q) ≡ some (some l) = rw same at at in
            let is_l : q ≡ l = cc found in
            let host_k : (q.host == k) ≡ true = subst (λ i. (i == k) ≡ true) (sym b.0) same in
            let gone = subst (λ i. lookup i batch ≡ none) ((text_beq_iff j k).0 same) m.0 in
            let not_put = has_put-lookup k batch m.1 ∙ rw gone refl in
            let free = b.2 in
            let written : find_row k (put_lease broken q rows) ≡ some q =
              find_row-put_lease broken works q k rows named t ∙ rw host_k refl in
            find_row-other batch k (put_lease broken q rows) b.3 table not_put
            ∙ ap (unless_taken batch) written
            ∙ rw free (ap some is_l)
        | inr other ↦
            find_row-put batch k l (put_lease broken q rows) m.1 b.3 table (rw other at at)
      ]

-- What the table holds for a host after a flush: what waited for it, or what it held.
abbrev pub wanted : Option (Option StoredLease) → Option StoredLease → Option StoredLease
wanted (some w) r = w
wanted none r = r

-- A flush whose writes are all made, in whatever order it takes the hosts, leaves nothing waiting, and
-- no host with two rows. A host for which a lease waited has that lease in the table, one for which a
-- deletion waited has none, and every other host keeps its row unless a lease that waited is for its
-- address. The pool has a store, each lease waits under its host, and no two are for one address.
pub flush_lem :
    (broken : Text → Bool)
    → NoneBroken broken
    → (p : Pool) (rows : Rows) (k : Text) → p.has_store ≡ true
    → IsMap p.pending
    → IsBatch p.pending
    → IsTable rows
    → ((flush broken p rows).0.pending ≡ [])
      × IsTable (flush broken p rows).1
      × (find_row k (flush broken p rows).1
          ≡ wanted (lookup k p.pending) (unless_taken p.pending (find_row k rows)))
unfolding flush
flush_lem broken works p rows k stored m b t =
    let left = flush_deletes broken p.pending rows in
    let table = flush_deletes-IsTable broken works p.pending rows t in
    let deleted = find_row-flush_deletes broken works p.pending k rows m in
    let puts = has_put-lookup k p.pending m in
    let after : flush broken p rows
        ≡ (record p { pending = [] }, flush_puts broken p.pending left) =
      simp stored in
    subst
      (λ o.
        (o.0.pending ≡ [])
        × IsTable o.1
        × (find_row k o.1 ≡ wanted (lookup k p.pending) (unless_taken p.pending (find_row k rows))))
      (sym after)
      (
        refl,
        flush_puts-IsTable broken works p.pending left table,
        elim (Option-cases (lookup k p.pending)) [
          | inl e ↦
              let kept : find_row k left ≡ find_row k rows = deleted ∙ rw e refl in
              find_row-other broken works p.pending k left b table (puts ∙ rw e refl)
              ∙ ap (unless_taken p.pending) kept
              ∙ rw e refl
          | inr (none, e) ↦
              let gone : find_row k left ≡ none = deleted ∙ rw e refl in
              find_row-other broken works p.pending k left b table (puts ∙ rw e refl)
              ∙ ap (unless_taken p.pending) gone
              ∙ rw e refl
          | inr (some l, e) ↦ find_row-put broken works p.pending k l left m b table e ∙ rw e refl
        ],
      )
