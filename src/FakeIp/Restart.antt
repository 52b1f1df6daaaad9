-- ===== src/FakeIp/Restart.antt =====
-- A restart: the pool that restore builds from the rows of the store.
use em_wall.Prelude.{
  ℕ, ◌+◌, ◌%◌, ◌<◌, ◌≡◌, ◌≢◌, ◌∙◌, refl, true, Option, none, some, List, [], ◌∷◌, sym, ap, subst,
  ◌++◌, nat_eq, text_eq, lookup, lookup-insert, arith, Bool-cases, inl, inr, All,
}
use em_wall.FakeIp.{
  Pool, StoredLease, Restoring, u32, restore, restore_row, restore_rows, keep_row, drop_row,
  allocate,
}
use em_wall.FakeIp.Invariant.{IsValid}
use em_wall.FakeIp.Leases.{IsLeased, allocate_again}
use em_wall.FakeIp.Rows.{
  IsRestoring, Usable, FreshHosts, restore_row-cases, keep_row-IsLeased, restore_row-IsRestoring,
  restore_row-FreshHosts, restore_rows-IsRestoring, restore_rows-other,
}

start : Pool → Restoring
start p = record { pool = p; max_off = 0; dropped = 0 }

start-IsRestoring : (p : Pool) → IsValid p → IsRestoring (start p)
unfolding start
start-IsRestoring p v = record { pool = v; max_off_in = let m = v.size_min in omega arith }

size-restore_rows :
    (s : Restoring) (ls : List StoredLease)
    → ((restore_rows s ls).pool.size ≡ s.pool.size) × ((restore_rows s ls).pool.base ≡ s.pool.base)
unfolding restore_rows
size-restore_rows s [] = (refl, refl)
size-restore_rows s (l ∷ ls) =
    let (m, b) = size-restore_rows (restore_row s l) ls in
    elim (restore_row-cases s l) [
      | inl e ↦ (
        m ∙ ap (λ r. r.pool.size) e ∙ unfold drop_row in refl,
        b ∙ ap (λ r. r.pool.base) e ∙ unfold drop_row in refl,
      )
      | inr (a, u, f, e) ↦ (
        m ∙ ap (λ r. r.pool.size) e ∙ unfold keep_row in refl,
        b ∙ ap (λ r. r.pool.base) e ∙ unfold keep_row in refl,
      )
    ]

restore-eq :
    (p : Pool) (ls : List StoredLease)
    → p.has_store ≡ true
    → restore p (some ls) ≡ record (restore_rows (start p) ls).pool {
      cursor = u32 ((restore_rows (start p) ls).max_off + 1) % p.size;
    }
unfolding restore start
restore-eq p ls h = ground arith

used :
    (s : Restoring) (l : StoredLease) (a : ℕ)
    → Usable s.pool l a
    → lookup a s.pool.by_ip ≡ none
    → restore_row s l ≡ keep_row s l a
unfolding restore_row
used s l a (i, lo, hi) free = ground arith

still_free :
    (s : Restoring) (k : StoredLease) (a : ℕ)
    → k.ip ≢ some a
    → lookup a s.pool.by_ip ≡ none
    → lookup a (restore_row s k).pool.by_ip ≡ none
still_free s k a other free = elim (restore_row-cases s k) [
  | inl e ↦ ap (λ r. lookup a r.pool.by_ip) e ∙ unfold drop_row in free
  | inr (b, u, f, e) ↦
      let apart : b ≢ a = λ q. other (u.0 ∙ ap some q) in
      ap (λ r. lookup a r.pool.by_ip) e
      ∙ unfold keep_row in ground (arith, lookup-insert b a s.pool.fresh s.pool.by_ip)
]

row-IsLeased :
    (s : Restoring) (xs ys : List StoredLease) (l : StoredLease) (a : ℕ)
    → IsRestoring s
    → FreshHosts s.pool (xs ++ (l ∷ ys))
    → Usable s.pool l a
    → lookup a s.pool.by_ip ≡ none
    → All (λ k. k.ip ≢ some a) xs
    → IsLeased (restore_rows s (xs ++ (l ∷ ys))).pool l.host a l.expires_at
unfolding restore_rows
row-IsLeased s [] ys l a v f u free other =
    restore_rows-other (restore_row s l) ys l.host a l.expires_at
      (restore_row-IsRestoring s v l f.0) (restore_row-FreshHosts s v l ys f.1 f.2) f.1
      (subst (λ r. IsLeased r.pool l.host a l.expires_at) (sym (used s l a u free))
        (keep_row-IsLeased s v l f.0 a))
row-IsLeased s (k ∷ xs) ys l a v f u free other =
    let (m, b) = size-restore_rows s (k ∷ []) in
    row-IsLeased (restore_row s k) xs ys l a (restore_row-IsRestoring s v k f.0)
      (restore_row-FreshHosts s v k (xs ++ (l ∷ ys)) f.1 f.2) (u.0, omega arith, omega arith)
      (still_free s k a other.0 free) other.1

cursor-IsValid : (p : Pool) (c : ℕ) → IsValid p → c < p.size → IsValid (record p { cursor = c })
cursor-IsValid p c v h = record {
  size_min = v.size_min;
  size_max = v.size_max;
  block = v.block;
  cursor_in = h;
  host_entry = v.host_entry;
  ip_entry = v.ip_entry;
}

module _ (p : Pool) (v : IsValid p) where
  cursor_fits :
      (ls : List StoredLease)
      → u32 ((restore_rows (start p) ls).max_off + 1) % p.size
        < (restore_rows (start p) ls).pool.size
  cursor_fits ls =
      let m = v.size_min in
      let e = (size-restore_rows (start p) ls).0 in
      let e' : (start p).pool.size ≡ p.size = unfold start in refl in grind arith

  -- Restoring rows with different hosts, none of them leased in the valid pool, keeps the pool
  -- valid, whatever addresses the rows hold.
  pub restore-IsValid :
      (rows : Option (List StoredLease))
      → ((ls : List StoredLease) → rows ≡ some ls → FreshHosts p ls)
      → IsValid (restore p rows)
  restore-IsValid none f = unfold restore in v
  restore-IsValid (some ls) f = elim (Bool-cases p.has_store) [
    | inr h ↦
        let same : restore p (some ls) ≡ p = unfold restore in ground arith in
        subst IsValid (sym same) v
    | inl h ↦
        let r =
          restore_rows-IsRestoring (start p) ls (start-IsRestoring p v)
            (unfold start in f ls refl) in
        let m = v.size_min in
        subst IsValid (sym (restore-eq p ls h)) (cursor-IsValid _ _ r.pool (cursor_fits ls))
  ]

  -- In a valid pool with a store, one row holds a usable address that is free in the pool and that
  -- no row before it holds, and the rows have different hosts, none of them leased in the pool:
  -- after a restart that row's host has its old address and term, and gets that address whenever it
  -- asks again.
  pub restart_sticky :
      (xs ys : List StoredLease) (l : StoredLease) (a now : ℕ)
      → p.has_store ≡ true
      → FreshHosts p (xs ++ (l ∷ ys))
      → Usable p l a
      → lookup a p.by_ip ≡ none
      → All (λ k. k.ip ≢ some a) xs
      → IsLeased (restore p (some (xs ++ (l ∷ ys)))) l.host a l.expires_at
        × ((allocate (restore p (some (xs ++ (l ∷ ys)))) l.host now).1 ≡ some a)
  restart_sticky xs ys l a now h f u free other =
      let leased : IsLeased (restore p (some (xs ++ (l ∷ ys)))) l.host a l.expires_at =
        subst (λ q. IsLeased q l.host a l.expires_at) (sym (restore-eq p (xs ++ (l ∷ ys)) h))
          (row-IsLeased (start p) xs ys l a (start-IsRestoring p v) (unfold start in f)
            (unfold start in u) (unfold start in free) other) in
      (
        leased,
        (allocate_again (restore p (some (xs ++ (l ∷ ys)))) l.host now a l.expires_at leased).0,
      )
