-- ===== src/Ports.antt =====
-- core/xray/ports.go: the ports of the entries' inbounds. The set of used ports is a map from ports.
use em_wall.Prelude.{
  ℕ, zero, suc, ◌+◌, ◌≤◌, ◌<◌, ◌≡◌, Bool, true, false, Option, none, some, List, nat_eq, ◌==◌,
  lookup, if◌then◌else◌, arith, Bool-cases, inl, inr,
}

abbrev pub port_start : ℕ
port_start = 11800

abbrev pub port_end : ℕ
port_end = 11899

-- used[p]; a port that the map lacks is not used
abbrev pub is_used : List (ℕ × Bool) → ℕ → Bool
is_used used p = elim (lookup p used) [ some b ↦ b | none ↦ false ]

-- the loop, `n` ports from `p` on
pub first_free : List (ℕ × Bool) → ℕ → ℕ → Option ℕ
unfolding lookup
first_free used zero p = none
first_free used (suc n) p =
    let rest = first_free used n (p + 1) in if is_used used p then rest else some p

-- nextFreePort; `none` is ErrNoPortFree
unfoldable pub next_free_port : List (ℕ × Bool) → Option ℕ
unfolding first_free
next_free_port used = first_free used 100 port_start

-- What an answer of the search means: the lowest port of the range that is not used, or none is.
abbrev pub IsLowestFree : List (ℕ × Bool) → ℕ → ℕ → Option ℕ → Type 0
IsLowestFree used lo hi none = (q : ℕ) → lo ≤ q → q < hi → is_used used q ≡ true
IsLowestFree used lo hi (some p) =
    (is_used used p ≡ false)
    × (lo ≤ p)
    × (p < hi)
    × ((q : ℕ) → lo ≤ q → q < p → is_used used q ≡ true)

widen :
    (used : List (ℕ × Bool)) (lo hi : ℕ) (o : Option ℕ)
    → is_used used lo ≡ true
    → IsLowestFree used (lo + 1) hi o
    → IsLowestFree used lo hi o
widen used lo hi none u h = λ q le lt. elim (Bool-cases (lo == q)) [
  | inl here ↦ ground arith
  | inr other ↦ h q (ground arith) lt
]
widen used lo hi (some p) u (free, ge, lt, below) = (
  free,
  omega arith,
  lt,
  λ q le l. elim (Bool-cases (lo == q)) [
    | inl here ↦ ground arith
    | inr other ↦ below q (ground arith) l
  ],
)

first_free-IsLowestFree :
    (used : List (ℕ × Bool)) (n p : ℕ) → IsLowestFree used p (p + n) (first_free used n p)
unfolding first_free
first_free-IsLowestFree used zero p = λ q le lt. ground arith
first_free-IsLowestFree used (suc n) p = elim (Bool-cases (is_used used p)) [
  | inr free ↦ rw (free, first_free) (free, omega arith, omega arith, λ q le lt. ground arith)
  | inl taken ↦
      let up : p + suc n ≡ (p + 1) + n = omega arith in
      rw (taken, first_free)
        (rw up (
          widen used p ((p + 1) + n) (first_free used n (p + 1)) taken
            (first_free-IsLowestFree used n (p + 1))))
]

-- The port chosen for an entry is the lowest of the range that is not in use; the search fails only
-- if every port of the range, its last one included, is in use.
pub next_free_port-IsLowestFree :
    (used : List (ℕ × Bool)) → IsLowestFree used port_start (port_end + 1) (next_free_port used)
unfolding next_free_port
next_free_port-IsLowestFree used = first_free-IsLowestFree used 100 port_start
