-- ===== src/FakeIp/Store/Table.antt =====
-- The table of leases: what its operations do to the row of a host.
use em_wall.Prelude.{
  ℕ, ◌≡◌, ◌∙◌, refl, ap, true, Option, none, some, [], ◌∷◌, Text, ◌==◌, nat_eq, text_eq,
  text_beq_iff, if◌then◌else◌, arith, Bool-cases, inl, inr,
}
use em_wall.FakeIp.{StoredLease}
use em_wall.FakeIp.Store.{Rows, same_ip, drop_address, upsert, remove_host}

-- The row of a host.
abbrev pub find_row : Text → Rows → Option StoredLease
find_row h [] = none
find_row h (r ∷ rows) = if r.host == h then some r else find_row h rows

abbrev pub unless_ip : Option ℕ → Option StoredLease → Option StoredLease
unless_ip ip none = none
unless_ip ip (some r) = if same_ip r.ip ip then none else some r

-- No host has two rows.
abbrev pub IsTable : Rows → Type 0
IsTable [] = Unit
IsTable (r ∷ rows) = (find_row r.host rows ≡ none) × IsTable rows

find_row-at : (h k : Text) (rows : Rows) → (h == k) ≡ true → find_row h rows ≡ find_row k rows
find_row-at h k rows e = ap (λ j. find_row j rows) ((text_beq_iff h k).0 e)

pub find_row-remove_host :
    (h k : Text) (rows : Rows)
    → find_row k (remove_host h rows) ≡ (if h == k then none else find_row k rows)
unfolding remove_host
find_row-remove_host h k [] = ground arith
find_row-remove_host h k (r ∷ rows) = ground (
  arith,
  find_row-remove_host h k rows,
  text_beq_iff r.host h,
  text_beq_iff r.host k,
  text_beq_iff h k,
)

pub find_row-drop_address :
    (ip : Option ℕ) (h k : Text) (rows : Rows)
    → IsTable rows
    → find_row k (drop_address ip h rows)
      ≡ (if h == k then find_row k rows else unless_ip ip (find_row k rows))
unfolding drop_address
find_row-drop_address ip h k [] t = ground arith
find_row-drop_address ip h k (r ∷ rows) t =
    let once = t.0 in
    let at = find_row-at r.host k rows in
    ground (
      arith,
      find_row-drop_address ip h k rows t.1,
      text_beq_iff r.host h,
      text_beq_iff r.host k,
      text_beq_iff h k,
    )

pub find_row-upsert :
    (l : StoredLease) (k : Text) (rows : Rows)
    → find_row k (upsert l rows) ≡ (if l.host == k then some l else find_row k rows)
unfolding upsert
find_row-upsert l k [] = refl
find_row-upsert l k (r ∷ rows) = ground (
  arith,
  find_row-upsert l k rows,
  text_beq_iff r.host l.host,
  text_beq_iff r.host k,
  text_beq_iff l.host k,
)

pub remove_host-IsTable : (h : Text) (rows : Rows) → IsTable rows → IsTable (remove_host h rows)
unfolding remove_host
remove_host-IsTable h [] t = tt
remove_host-IsTable h (r ∷ rows) t =
    let once = t.0 in
    ground (arith, remove_host-IsTable h rows t.1, find_row-remove_host h r.host rows)

pub drop_address-IsTable :
    (ip : Option ℕ) (h : Text) (rows : Rows) → IsTable rows → IsTable (drop_address ip h rows)
unfolding drop_address
drop_address-IsTable ip h [] t = tt
drop_address-IsTable ip h (r ∷ rows) t =
    let once = t.0 in
    ground (arith, drop_address-IsTable ip h rows t.1, find_row-drop_address ip h r.host rows t.1)

pub upsert-IsTable : (l : StoredLease) (rows : Rows) → IsTable rows → IsTable (upsert l rows)
unfolding upsert
upsert-IsTable l [] t = (refl, tt)
upsert-IsTable l (r ∷ rows) t =
    let once = t.0 in
    elim (Bool-cases (r.host == l.host)) [
      | inl same ↦
          rw (same, upsert)
            (
              find_row-at l.host r.host rows (
                    let flip = text_beq_iff l.host r.host in
                    let this = text_beq_iff r.host l.host in ground arith)
                  ∙ once,
              t.1,
            )
      | inr other ↦
          rw (other, upsert)
            (
              find_row-upsert l r.host rows
                  ∙ (let flip = text_beq_iff l.host r.host in
                      let this = text_beq_iff r.host l.host in ground arith),
              upsert-IsTable l rows t.1,
            )
    ]
