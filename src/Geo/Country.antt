-- ===== src/Geo/Country.antt =====
-- The lookup of an address.
use em_wall.Prelude.{
  ℕ, zero, suc, ◌≤◌, ◌<◌, ◌≡◌, inl, inr, refl, sym, false, ◌&&◌, Option, none, some, List, [], ◌∷◌,
  nat_eq, ltb, leb, if◌then◌else◌, arith, Bool-cases, All,
}
use em_wall.Geo.{Range, ranges_below, look_back, country}

-- The ranges lie apart, in the order of the list.
abbrev pub IsApart : List Range → Type 0
IsApart [] = Unit
IsApart (r ∷ []) = r.lo ≤ r.hi
IsApart (r ∷ q ∷ rs) = (r.lo ≤ r.hi) × (r.hi < q.lo) × IsApart (q ∷ rs)

-- What a lookup should say of an address in ranges that lie apart.
unfoldable pub owner : List Range → ℕ → Option ℕ
owner [] v = none
owner (r ∷ rs) v = let rest = owner rs v in if leb r.lo v && leb v r.hi then some r.cc else rest

owner-below :
    (r : Range) (rs : List Range) (v : ℕ) → IsApart (r ∷ rs) → v < r.lo → owner (r ∷ rs) v ≡ none
unfolding owner
owner-below r [] v s h = ground (arith, h)
owner-below r (q ∷ rs) v s h =
    let (a, b, c) = s in
    let ih = owner-below q rs v c (omega (arith, a, b, h)) in ground (arith, h, ih)

look_back-none :
    (k v : ℕ) (near : List Range) → All (λ r. r.hi < v) near → look_back k v near ≡ none
unfolding look_back
look_back-none zero v near h = refl
look_back-none (suc k) v [] h = refl
look_back-none (suc k) v (r ∷ near) h =
    let ih = look_back-none k v near h.1 in let a = h.0 in ground arith

-- The nearest range below decides: those before it end below the address.
look_back-near :
    (k v : ℕ) (q : Range) (near : List Range)
    → q.lo ≤ v
    → All (λ r. r.hi < v) near
    → look_back (suc k) v (q ∷ near) ≡ (if leb q.lo v && leb v q.hi then some q.cc else none)
unfolding look_back
look_back-near k v q near h older = let ih = look_back-none k v near older in ground (arith, h, ih)

look_back-owner :
    (k v : ℕ) (q : Range) (near rs : List Range)
    → q.lo ≤ v
    → All (λ r. r.hi < v) near
    → IsApart (q ∷ rs)
    → look_back (suc k) v (ranges_below v (q ∷ near) rs) ≡ owner (q ∷ rs) v
unfolding ranges_below owner
look_back-owner k v q near [] h older s = look_back-near k v q near h older
look_back-owner k v q near (r ∷ rs) h older s =
    let (a, b, c) = s in
    elim (Bool-cases (ltb v r.lo)) [
      | inl past ↦
          let none_later = owner-below r rs v c (ground (arith, past)) in
          rw (past, none_later) (look_back-near k v q near h older)
      | inr reached ↦
          let there : r.lo ≤ v = ground (arith, reached) in
          let ih = look_back-owner k v r (q ∷ near) rs there (omega (arith, b, there), older) c in
          let apart : (leb q.lo v && leb v q.hi) ≡ false = ground (arith, b, there) in
          rw (reached, apart) ih
    ]

-- In a table whose ranges lie apart, in the order of the table, the lookup of an address, which starts
-- at the nearest range below and looks back at most eight, gives exactly the country of the range that
-- holds the address, and none where no range does.
pub country_lem : (rs : List Range) (v : ℕ) → IsApart rs → country rs v ≡ owner rs v
unfolding country ranges_below look_back owner
country_lem [] v s = refl
country_lem (r ∷ rs) v s = elim (Bool-cases (ltb v r.lo)) [
  | inl past ↦ rw past (sym (owner-below r rs v s (ground (arith, past))))
  | inr reached ↦ rw reached (look_back-owner 7 v r [] rs (ground (arith, reached)) tt s)
]
