-- ===== src/Geo/Merge.antt =====
-- Merging ranges loses and adds no address.
use em_wall.Prelude.{
  ℕ, ◌+◌, ◌-◌, ◌%◌, ◌^◌, ◌≤◌, ◌<◌, ◌≡◌, ◌∙◌, refl, ap, Bool, true, false, ◌&&◌, ◌||◌, List, [], ◌∷◌,
  ◌==◌, nat_eq, leb, All, arith, Bool-cases, inl, inr,
}
use em_wall.Geo.{Range, top, joins, extended, merge_loop, merge}

-- Whether a range of the country holds the address.
abbrev pub holds : Range → ℕ → ℕ → Bool
holds r v cc = leb r.lo v && leb v r.hi && r.cc == cc

unfoldable pub covers : List Range → ℕ → ℕ → Bool
covers [] v cc = false
covers (r ∷ rs) v cc = holds r v cc || covers rs v cc

-- A range of numbers of the width, and a list of them that is sorted by the low ends.
abbrev pub IsRange : ℕ → Range → Type 0
IsRange width r = (r.lo ≤ r.hi) × (r.hi < 2 ^ width)

abbrev pub IsSorted : List Range → Type 0
IsSorted [] = Unit
IsSorted (r ∷ []) = Unit
IsSorted (r ∷ q ∷ rs) = (r.lo ≤ q.lo) × IsSorted (q ∷ rs)

extended-IsRange :
    (width : ℕ) (last r : Range)
    → IsRange width last
    → IsRange width r
    → IsRange width (extended last r)
extended-IsRange width last r h k = ground arith

small_mod : (n m : ℕ) → n < m → n % m ≡ n
small_mod n m h = grind arith

-- What the test of the code comes to.
joins-near :
    (width : ℕ) (last r : Range)
    → IsRange width last
    → IsRange width r
    → joins width last r ≡ true
    → (last.cc ≡ r.cc) × (r.lo ≤ last.hi + 1)
joins-near width last r h k j =
    let size = 2 ^ width in
    let cc_same : last.cc ≡ r.cc = ground (arith, j) in
    elim (Bool-cases (last.hi == top width)) [
      | inl at_top ↦ (
        cc_same,
        (let e : last.hi ≡ size - 1 = ground (arith, at_top) in omega (arith, e, k.0, k.1)),
      )
      | inr below ↦
          let ne : last.hi + 1 < size = let u = h.1 in ground (arith, below) in
          let plain = small_mod (last.hi + 1) size ne in (cc_same, ground (arith, j, plain, below))
    ]

holds-extended :
    (width : ℕ) (last r : Range) (v cc : ℕ)
    → IsRange width last
    → IsRange width r
    → last.lo ≤ r.lo
    → joins width last r ≡ true
    → holds (extended last r) v cc ≡ (holds last v cc || holds r v cc)
holds-extended width last r v cc h k sorted j =
    let near = joins-near width last r h k j in
    let (a, b) = near in let c = h.0 in let d = k.0 in ground arith

extended-IsSorted :
    (last r : Range) (rs : List Range) → IsSorted (last ∷ r ∷ rs) → IsSorted (extended last r ∷ rs)
extended-IsSorted last r [] s = tt
extended-IsSorted last r (q ∷ rs) s = ((let a = s.0 in let b = s.1.0 in ground arith), s.1.1)

IsSorted-tail : (r : Range) (rs : List Range) → IsSorted (r ∷ rs) → IsSorted rs
IsSorted-tail r [] s = tt
IsSorted-tail r (q ∷ rs) s = s.1

or_assoc : (a b c : Bool) → ((a || b) || c) ≡ (a || (b || c))
or_assoc true b c = refl
or_assoc false b c = refl

covers-merge_loop :
    (width : ℕ) (last : Range) (rs : List Range) (v cc : ℕ)
    → All (IsRange width) (last ∷ rs)
    → IsSorted (last ∷ rs)
    → covers (merge_loop width last rs) v cc ≡ covers (last ∷ rs) v cc
unfolding covers merge_loop
covers-merge_loop width last [] v c h s = refl
covers-merge_loop width last (r ∷ rs) v c h s =
    let (first, (second, others)) = h in
    elim (Bool-cases (joins width last r)) [
      | inl j ↦
          let one = holds-extended width last r v c first second s.0 j in
          let ih =
            covers-merge_loop width (extended last r) rs v c
              (extended-IsRange width last r first second, others)
              (extended-IsSorted last r rs s) in
          rw j (
            ih
            ∙ ap (λ b. b || covers rs v c) one
            ∙ or_assoc (holds last v c) (holds r v c) (covers rs v c))
      | inr j ↦
          let ih = covers-merge_loop width r rs v c (second, others) s.1 in
          rw j (ap (λ b. holds last v c || b) ih)
    ]

-- Of a table of ranges within the width of the numbers, sorted by their low ends, merging keeps for
-- every address and country whether a range of the country holds the address, for both families, and
-- also where a range ends at the highest address.
pub covers-merge :
    (width : ℕ) (rs : List Range) (v cc : ℕ)
    → All (IsRange width) rs
    → IsSorted rs
    → covers (merge width rs) v cc ≡ covers rs v cc
unfolding merge covers
covers-merge width [] v cc h s = refl
covers-merge width (r ∷ rs) v cc h s = covers-merge_loop width r rs v cc h s
