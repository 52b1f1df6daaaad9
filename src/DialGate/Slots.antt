-- ===== src/DialGate/Slots.antt =====
-- The slots taken are those of the dials that have not released.
use em_wall.Prelude.{
  ℕ, zero, suc, ◌+◌, ◌≤◌, ◌<◌, ◌≡◌, ◌∙◌, refl, ap, Bool, true, false, ◌&&◌, Option, none, some,
  ◌==◌, nat_eq, ltb, if◌then◌else◌, arith, Bool-cases, inl, inr,
}
use em_wall.DialGate.{Gate, new_dial_gate, acquire, release}

-- How many of the first `n` acquisitions have not released.
unfoldable pub in_flight : (ℕ → Bool) → ℕ → ℕ
in_flight released zero = 0
in_flight released (suc n) = (if released n then 0 else 1) + in_flight released n

pub record IsGated (g : Gate) : Type 0 where
  pub counted : g.slots ≡ in_flight g.released g.fresh
  pub bounded : g.slots ≤ g.size
  pub unused : (i : ℕ) → g.fresh ≤ i → g.released i ≡ false

-- The release functions that there are.
abbrev IsHandle : Gate → Option ℕ → Type 0
IsHandle g none = Unit
IsHandle g (some i) = i < g.fresh

pub data Step (g : Gate) : Gate → Type 0 where
  acquires : (picks : Bool) → Step g (acquire g picks).0
  releases : (h : Option ℕ) → IsHandle g h → Step g (release g h)

pub data Reachable (n : ℕ) : Gate → Type 0 where
  start : Reachable n (new_dial_gate n)
  later : {g k : Gate} → Reachable n g → Step g k → Reachable n k

in_flight-above :
    (released : ℕ → Bool) (i n : ℕ)
    → n ≤ i
    → in_flight (λ j. if j == i then true else released j) n ≡ in_flight released n
unfolding in_flight
in_flight-above released i zero h = refl
in_flight-above released i (suc n) h =
    let ih = in_flight-above released i n (omega (arith, h)) in
    let apart : (n == i) ≡ false = ground (arith, h) in rw (apart, ih) refl

in_flight-release :
    (released : ℕ → Bool) (i n : ℕ)
    → i < n
    → released i ≡ false
    → in_flight (λ j. if j == i then true else released j) n + 1 ≡ in_flight released n
unfolding in_flight
in_flight-release released i zero h e = absurd (omega (arith, h))
in_flight-release released i (suc n) h e = elim (Bool-cases (n == i)) [
  | inl same ↦
      let at : n ≡ i = ground (arith, same) in
      let ih = in_flight-above released i n (omega (arith, at)) in
      let open_one : released n ≡ false = ap released at ∙ e in
      rw (same, open_one, ih) (omega arith)
  | inr apart ↦
      let ih = in_flight-release released i n (ground (arith, h, apart)) e in
      rw apart (omega (arith, ih))
]

in_flight-new :
    (released : ℕ → Bool) (n : ℕ)
    → released n ≡ false
    → in_flight released (n + 1) ≡ in_flight released n + 1
unfolding in_flight
in_flight-new released n e =
    let step : n + 1 ≡ suc n = omega arith in ap (in_flight released) step ∙ rw e (omega arith)

acquire-IsGated : (g : Gate) (picks : Bool) → IsGated g → IsGated (acquire g picks).0
unfolding acquire
acquire-IsGated g picks v = elim (Bool-cases (ltb g.slots g.size && picks)) [
  | inl takes ↦
      let new = in_flight-new g.released g.fresh (v.unused g.fresh (omega arith)) in
      rw takes (record {
        counted = omega (arith, v.counted, new);
        bounded = ground (arith, takes);
        unused = λ i h. v.unused i (omega (arith, h));
      })
  | inr fails ↦ rw fails v
]

release-IsGated : (g : Gate) (h : Option ℕ) → IsHandle g h → IsGated g → IsGated (release g h)
unfolding release
release-IsGated g none k v = v
release-IsGated g (some i) k v = elim (Bool-cases (g.released i)) [
  | inl again ↦ rw again v
  | inr first ↦
      let less = in_flight-release g.released i g.fresh k first in
      rw first (record {
        counted = omega (arith, v.counted, less);
        bounded = omega (arith, v.bounded);
        unused = λ j h.
            let free = v.unused j h in
            let apart : (j == i) ≡ false = ground (arith, h, k) in rw apart free;
      })
]

-- In any order of acquisitions, with or without success, and of calls of their release functions, each
-- any number of times: the slots taken are exactly the acquisitions that have not released, and never
-- more than the gate's size.
pub Reachable-IsGated : {n : ℕ} {g : Gate} → Reachable n g → IsGated g
unfolding in_flight
Reachable-IsGated start = record { counted = refl; bounded = omega arith; unused = λ i h. refl }
Reachable-IsGated (later {g} r (acquires picks)) = acquire-IsGated g picks (Reachable-IsGated r)
Reachable-IsGated (later {g} r (releases h k)) = release-IsGated g h k (Reachable-IsGated r)
