-- ===== src/Latency/Cooldown.antt =====
-- How long the breaker of an upstream stays open after a trip.
use native.Mathlib.Nat.{pow-suc, mul_assoc, mul_comm}
use em_wall.Prelude.{
  ℕ, zero, suc, ◌-◌, ◌*◌, ◌^◌, ◌≤◌, ◌≡◌, ◌∙◌, ap, nat_eq, text_eq, ltb, if◌then◌else◌, arith,
  Bool-cases, inl, inr,
}
use em_wall.Latency.{Sample, breaker_cooldown, breaker_cooldown_max, doubled, cooldown}

le-mul : (a b : ℕ) → 1 ≤ b → a ≤ a * b
le-mul a b h = grind arith

abbrev pub capped : ℕ → ℕ
capped d = if ltb breaker_cooldown_max d then breaker_cooldown_max else d

pow_pos : (n : ℕ) → 1 ≤ 2 ^ n
pow_pos zero = omega arith
pow_pos (suc n) = let step = pow-suc 2 n in omega (arith, pow_pos n)

capped-doubled : (n d : ℕ) → capped (doubled n d) ≡ capped (d * 2 ^ n)
unfolding doubled
capped-doubled zero d = ground arith
capped-doubled (suc n) d =
    let step = pow-suc 2 n in
    let again = capped-doubled n (d * 2) in
    let pos = pow_pos n in
    elim (Bool-cases (ltb d breaker_cooldown_max)) [
      | inl more ↦
          let same : d * 2 * 2 ^ n ≡ d * 2 ^ suc n =
            cc (step, mul_assoc d 2 (2 ^ n), mul_comm (2 ^ n) 2) in
          rw (more, doubled) (again ∙ ap capped same)
      | inr full ↦
          rw (full, doubled)
            (let large : d ≤ d * 2 ^ suc n = le-mul d (2 ^ suc n) (pow_pos (suc n)) in ground arith)
    ]

-- The cooldown of an open breaker is the first one doubled once for every trip after the first, and
-- the longest one from there on.
pub cooldown_lem : (s : Sample) → cooldown s ≡ capped (breaker_cooldown * 2 ^ (s.trips - 1))
unfolding cooldown
cooldown_lem s = capped-doubled (s.trips - 1) breaker_cooldown

pub cooldown-trips : (c s : Sample) → c.trips ≡ s.trips → cooldown c ≡ cooldown s
unfolding cooldown
cooldown-trips c s e = ap (λ n. capped (doubled (n - 1) breaker_cooldown)) e
