-- ===== src/Tests/Pools.antt =====
-- The lease pool at a block of four addresses: 198.18.0.0/30.
use em_wall.Prelude.{
  ℕ, ◌+◌, ◌<◌, ◌≡◌, ◌≢◌, ◌↔◌, refl, true, none, some, [], ◌∷◌, ◌++◌, Text, codes, arith, lookup,
  nat_eq, text_eq,
}
use em_wall.FakeIp.{Pool, StoredLease, allocate, restore}
use em_wall.FakeIp.Invariant.{IsValid}
use em_wall.FakeIp.Allocation.{allocate-IsValid}
use em_wall.FakeIp.Leases.{IsLeased, serve, sticky, allocate-IsLeased}
use em_wall.FakeIp.Exhaustion.{Busy, allocate_fails_iff}
use em_wall.FakeIp.Rows.{Usable, FreshHosts}
use em_wall.FakeIp.Restart.{restart_sticky}

abbrev block : ℕ
block = 3323068416

abbrev pool : Pool
pool = record {
  base = block;
  size = 4;
  cursor = 0;
  ttl = 100;
  by_host = [];
  by_ip = [];
  heap = λ r. record { ip = 0; host = []; expiry = 0; stored = 0 };
  fresh = 0;
  has_store = true;
  pending = [];
}

pool-IsValid : IsValid pool
unfolding lookup
pool-IsValid = record {
  size_min = omega arith;
  size_max = omega arith;
  block = omega arith;
  cursor_in = omega arith;
  host_entry = λ h r e. ground arith;
  ip_entry = λ a r e. ground arith;
}

abbrev web : Text
web = codes "web.example"

abbrev mail : Text
mail = codes "mail.example"

allocate-IsValid_example : IsValid (allocate pool web 5).0
allocate-IsValid_example = allocate-IsValid pool pool-IsValid web 5

given : (allocate pool web 5).1 ≡ some (block + 1)
unfolding allocate
given = refl

web-IsLeased : IsLeased (allocate pool web 5).0 web (block + 1) 105
web-IsLeased = allocate-IsLeased pool web 5 (block + 1) given

in_term : 50 < 105
in_term = omega arith

in_term2 : 60 < 105
in_term2 = omega arith

mail_is_new : mail ≢ web
mail_is_new e = cc

sticky_example :
    (allocate (serve (allocate pool web 5).0 ((mail, 50) ∷ (mail, 60) ∷ [])) web 70).1
    ≡ some (block + 1)
sticky_example =
    sticky (allocate pool web 5).0 ((mail, 50) ∷ (mail, 60) ∷ []) web (block + 1) 105 70
      (allocate-IsValid pool pool-IsValid web 5) web-IsLeased
      ((mail_is_new, in_term), ((mail_is_new, in_term2), tt))

allocate_fails_iff_example :
    ((allocate pool web 5).1 ≡ none)
    ↔ ((lookup web pool.by_host ≡ none) × ((off : ℕ) → 0 < off → off < pool.size → Busy pool 5 off))
allocate_fails_iff_example = allocate_fails_iff pool pool-IsValid web 5

abbrev row_web : StoredLease
row_web = record { host = web; ip = some (block + 2); expires_at = 90 }

abbrev row_mail : StoredLease
row_mail = record { host = mail; ip = some (block + 3); expires_at = 80 }

fresh_rows : FreshHosts pool (row_mail ∷ row_web ∷ [])
unfolding lookup
fresh_rows = (refl, (mail_is_new, tt), (refl, tt, tt))

row_web-Usable : Usable pool row_web (block + 2)
row_web-Usable = (refl, omega arith, omega arith)

no_address : lookup (block + 2) pool.by_ip ≡ none
unfolding lookup
no_address = refl

mail_row_elsewhere : row_mail.ip ≢ some (block + 2)
mail_row_elsewhere e = ground arith

restart_sticky_example :
    IsLeased
      (restore pool (some ((row_mail ∷ []) ++ (row_web ∷ []))))
      row_web.host
      (block + 2)
      row_web.expires_at
    × ((allocate (restore pool (some ((row_mail ∷ []) ++ (row_web ∷ [])))) row_web.host 500).1
        ≡ some (block + 2))
restart_sticky_example =
    restart_sticky pool pool-IsValid (row_mail ∷ []) [] row_web (block + 2) 500 refl fresh_rows
      row_web-Usable no_address (mail_row_elsewhere, tt)
