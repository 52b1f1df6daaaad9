-- ===== src/Geo.antt =====
-- core/geo/ipranges.go: the table of address ranges by country. Where the two families share the code
-- but for the width of a number, the model has one function over the width. The ranges of the file,
-- sorted by their low ends, are given: reading and sorting them is not modelled here. `sort.Search` is
-- the first index at which its test holds.
pub mod Merge
pub mod Country
use em_wall.Prelude.{
  ℕ, zero, suc, ◌+◌, ◌-◌, ◌%◌, ◌^◌, Bool, true, false, not, ◌&&◌, ◌||◌, Option, none, some, List,
  [], ◌∷◌, ◌==◌, nat_eq, ltb, leb, if◌then◌else◌,
}

-- range4 and range6; `cc` is an index of the codes
pub record Range : Type 0 where
  pub lo : ℕ
  pub hi : ℕ
  pub cc : ℕ

-- ^uint32(0) and ^uint64(0)
abbrev pub top : ℕ → ℕ
top width = 2 ^ width - 1

-- the test of merge4 and merge6, with the wrap of the sum
abbrev pub joins : ℕ → Range → Range → Bool
joins width last r =
    last.cc == r.cc && (last.hi == top width || leb r.lo ((last.hi + 1) % 2 ^ width))

abbrev pub extended : Range → Range → Range
extended last r = if ltb last.hi r.hi then record last { hi = r.hi } else last

-- the loop of merge4 and merge6 behind the first range: `last` is the end of what was put out. The
-- slice is filled in place, never past the range that is read.
unfoldable pub merge_loop : ℕ → Range → List Range → List Range
merge_loop width last [] = last ∷ []
merge_loop width last (r ∷ rs) =
    let more = merge_loop width (extended last r) rs in
    let next = merge_loop width r rs in if joins width last r then more else last ∷ next

unfoldable pub merge : ℕ → List Range → List Range
unfolding merge_loop
merge width [] = []
merge width (r ∷ rs) = merge_loop width r rs

-- merge4 and merge6
unfoldable pub merge4 : List Range → List Range
unfolding merge
merge4 = merge 32

unfoldable pub merge6 : List Range → List Range
unfolding merge
merge6 = merge 64

abbrev pub nested_lookback : ℕ
nested_lookback = 8

-- the ranges before the first whose low end is above `v`, the nearest first
unfoldable pub ranges_below : ℕ → List Range → List Range → List Range
ranges_below v near [] = near
ranges_below v near (r ∷ rs) =
    let more = ranges_below v (r ∷ near) rs in if ltb v r.lo then near else more

-- the loop of country
unfoldable pub look_back : ℕ → ℕ → List Range → Option ℕ
look_back zero v near = none
look_back (suc k) v [] = none
look_back (suc k) v (r ∷ near) =
    let rest = look_back k v near in if leb v r.hi then some r.cc else rest

-- country, on the ranges of one family; none is the empty code
unfoldable pub country : List Range → ℕ → Option ℕ
unfolding ranges_below look_back
country rs v = look_back nested_lookback v (ranges_below v [] rs)
