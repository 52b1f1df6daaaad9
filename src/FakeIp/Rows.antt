-- ===== src/FakeIp/Rows.antt =====
-- The loop of restore over the rows of the store.
use em_wall.Prelude.{
  ℕ, ◌+◌, ◌-◌, ◌<◌, ◌≡◌, ◌≢◌, ◌∙◌, none, some, List, [], ◌∷◌, Text, sym, ap, subst, ◌==◌, ◌||◌, ◌⊎◌,
  nat_eq, text_eq, ltb, leb, lookup, lookup-insert, text_beq_iff, arith, Option-cases, Bool-cases,
  inl, inr, All,
}
use em_wall.FakeIp.{Pool, StoredLease, Restoring, restore_row, restore_rows, keep_row, drop_row}
use em_wall.FakeIp.Invariant.{IsValid}
use em_wall.FakeIp.Leases.{IsLeased}

-- What the loop of restore keeps, cursor aside.
pub record IsRestoring (s : Restoring) : Type 0 where
  pub pool : IsValid s.pool
  pub max_off_in : s.max_off < s.pool.size

module _ (s : Restoring) (v : IsRestoring s) (l : StoredLease)
    (new_host : lookup l.host s.pool.by_host ≡ none) where
  keep_row-IsRestoring :
      (a : ℕ)
      → s.pool.base < a
      → a < s.pool.base + s.pool.size
      → lookup a s.pool.by_ip ≡ none
      → IsRestoring (keep_row s l a)
  unfolding keep_row
  keep_row-IsRestoring a lo hi new_ip = record {
    max_off_in = let m = v.max_off_in in ground arith;
    pool = record {
      size_min = v.pool.size_min;
      size_max = v.pool.size_max;
      block = v.pool.block;
      cursor_in = v.pool.cursor_in;
      host_entry = λ h r e.
          let old = lookup-insert l.host h s.pool.fresh s.pool.by_host in
          let same = text_beq_iff l.host h in
          let kept = v.pool.host_entry h r in
          let new = lookup-insert a a s.pool.fresh s.pool.by_ip in
          let moved = lookup-insert a (s.pool.heap r).ip s.pool.fresh s.pool.by_ip in ground arith;
      ip_entry = λ b r e.
          let old = lookup-insert a b s.pool.fresh s.pool.by_ip in
          let kept = v.pool.ip_entry b r in
          let bound = v.pool.host_entry (s.pool.heap r).host r in
          let same = text_beq_iff l.host (s.pool.heap r).host in
          let self = text_beq_iff l.host l.host in
          let new = lookup-insert l.host l.host s.pool.fresh s.pool.by_host in
          let moved = lookup-insert l.host (s.pool.heap r).host s.pool.fresh s.pool.by_host in
          ground arith;
    };
  }

  pub keep_row-IsLeased : (a : ℕ) → IsLeased (keep_row s l a).pool l.host a l.expires_at
  unfolding keep_row
  keep_row-IsLeased a = (
    s.pool.fresh,
    ground (
      arith,
      lookup-insert l.host l.host s.pool.fresh s.pool.by_host,
      text_beq_iff l.host l.host,
    ),
    ground arith,
    ground arith,
  )

  pub keep_row-other :
      (a : ℕ) (j : Text) (b t : ℕ)
      → l.host ≢ j
      → IsLeased s.pool j b t
      → IsLeased (keep_row s l a).pool j b t
  unfolding keep_row
  keep_row-other a j b t other (r, e, i, x) =
      let kept = lookup-insert l.host j s.pool.fresh s.pool.by_host in
      let same = text_beq_iff l.host j in
      let old = v.pool.host_entry j r e in (r, ground arith, ground arith, ground arith)

-- The address of a row, if restore can use it: in the block, and not its first.
abbrev pub Usable : Pool → StoredLease → ℕ → Type 0
Usable p l a = (l.ip ≡ some a) × (p.base < a) × (a < p.base + p.size)

-- What a row does: nothing but count, or one more lease at a free address of the block.
pub restore_row-cases :
    (s : Restoring) (l : StoredLease)
    → (restore_row s l ≡ drop_row s)
      ⊎ ((a : ℕ) × Usable s.pool l a
          × (lookup a s.pool.by_ip ≡ none)
          × (restore_row s l ≡ keep_row s l a))
unfolding restore_row
restore_row-cases s l = elim (Option-cases l.ip) [
  | inl e ↦ inl (ground arith)
  | inr (a, e) ↦ elim (Bool-cases (ltb a s.pool.base)) [
    | inl low ↦ inl (ground arith)
    | inr high ↦ elim (Bool-cases ((a - s.pool.base) == 0 || leb s.pool.size (a - s.pool.base))) [
      | inl out ↦ inl (ground arith)
      | inr fits ↦ elim (Option-cases (lookup a s.pool.by_ip)) [
        | inr (r, taken) ↦ inl (ground arith)
        | inl free ↦ inr (a, (e, ground arith, ground arith), free, ground arith)
      ]
    ]
  ]
]

-- The rows name different hosts, as the primary key of their table has it, and none that has a
-- lease already.
abbrev pub FreshHosts : Pool → List StoredLease → Type 0
FreshHosts p [] = Unit
FreshHosts p (l ∷ ls) =
    (lookup l.host p.by_host ≡ none) × All (λ k. l.host ≢ k.host) ls × FreshHosts p ls

module _ (s : Restoring) (v : IsRestoring s) (l : StoredLease) where
  pub restore_row-IsRestoring : lookup l.host s.pool.by_host ≡ none → IsRestoring (restore_row s l)
  restore_row-IsRestoring new = elim (restore_row-cases s l) [
    | inl e ↦
        subst IsRestoring (sym e)
          (unfold drop_row in record { pool = v.pool; max_off_in = v.max_off_in })
    | inr (a, (i, lo, hi), free, e) ↦
        subst IsRestoring (sym e) (keep_row-IsRestoring s v l new a lo hi free)
  ]

  pub restore_row-other :
      lookup l.host s.pool.by_host ≡ none
      → (j : Text) (b t : ℕ) → l.host ≢ j
      → IsLeased s.pool j b t
      → IsLeased (restore_row s l).pool j b t
  restore_row-other new j b t other k = elim (restore_row-cases s l) [
    | inl e ↦ subst (λ r. IsLeased r.pool j b t) (sym e) (unfold drop_row in k)
    | inr (a, u, free, e) ↦
        subst (λ r. IsLeased r.pool j b t) (sym e) (keep_row-other s v l new a j b t other k)
  ]

  restore_row-absent :
      (j : Text)
      → l.host ≢ j
      → lookup j s.pool.by_host ≡ none
      → lookup j (restore_row s l).pool.by_host ≡ none
  restore_row-absent j other h = elim (restore_row-cases s l) [
    | inl e ↦ ap (λ r. lookup j r.pool.by_host) e ∙ unfold drop_row in h
    | inr (a, u, free, e) ↦
        ap (λ r. lookup j r.pool.by_host) e
        ∙ unfold keep_row in
          ground (arith, lookup-insert l.host j s.pool.fresh s.pool.by_host, text_beq_iff l.host j)
  ]

  pub restore_row-FreshHosts :
      (ls : List StoredLease)
      → All (λ k. l.host ≢ k.host) ls
      → FreshHosts s.pool ls
      → FreshHosts (restore_row s l).pool ls
  restore_row-FreshHosts [] d f = tt
  restore_row-FreshHosts (k ∷ ks) d f =
      (restore_row-absent k.host d.0 f.0, f.1, restore_row-FreshHosts ks d.1 f.2)

pub restore_rows-IsRestoring :
    (s : Restoring) (ls : List StoredLease)
    → IsRestoring s
    → FreshHosts s.pool ls
    → IsRestoring (restore_rows s ls)
unfolding restore_rows
restore_rows-IsRestoring s [] v f = v
restore_rows-IsRestoring s (l ∷ ls) v f =
    restore_rows-IsRestoring (restore_row s l) ls (restore_row-IsRestoring s v l f.0)
      (restore_row-FreshHosts s v l ls f.1 f.2)

pub restore_rows-other :
    (s : Restoring) (ls : List StoredLease) (j : Text) (b t : ℕ)
    → IsRestoring s
    → FreshHosts s.pool ls
    → All (λ k. j ≢ k.host) ls
    → IsLeased s.pool j b t
    → IsLeased (restore_rows s ls).pool j b t
unfolding restore_rows
restore_rows-other s [] j b t v f d k = k
restore_rows-other s (l ∷ ls) j b t v f d k =
    restore_rows-other (restore_row s l) ls j b t (restore_row-IsRestoring s v l f.0)
      (restore_row-FreshHosts s v l ls f.1 f.2) d.1
      (restore_row-other s v l f.0 j b t (λ e. d.0 (sym e)) k)
