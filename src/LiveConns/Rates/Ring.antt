-- ===== src/LiveConns/Rates/Ring.antt =====
-- The ring is a list of samples, the oldest first, of which it keeps the last five.
use em_wall.Prelude.{
  ℕ, zero, suc, ◌+◌, ◌-◌, ◌%◌, ◌≤◌, ◌<◌, ◌≡◌, ◌∙◌, refl, sym, ap, false, ◌&&◌, List, [], ◌∷◌, ◌++◌,
  ◌==◌, nat_eq, ltb, if◌then◌else◌, length, drop, arith, Bool-cases, inl, inr,
}
use em_wall.LiveConns.Rates.{rate_slots, rate_gap, RateSample, RateWindow, add}

-- The `k` samples that end before the index `next`.
unfoldable pub before : (ℕ → RateSample) → ℕ → ℕ → List RateSample
before s next zero = []
before s next (suc k) = s ((next + rate_slots - suc k) % rate_slots) ∷ before s next k

-- What the ring holds.
unfoldable pub held : RateWindow → List RateSample
unfolding before
held w = before w.s w.next w.n

pub record IsRing (w : RateWindow) : Type 0 where
  pub next_max : w.next < rate_slots
  pub n_max : w.n ≤ rate_slots

-- The newest sample of a list.
unfoldable pub newest_at : List RateSample → ℕ
newest_at [] = 0
newest_at (x ∷ []) = x.at
newest_at (x ∷ y ∷ xs) = newest_at (y ∷ xs)

-- What a list of samples becomes: a gap of more than 3 seconds starts it again, and of six the oldest
-- goes.
unfoldable pub push : List RateSample → RateSample → List RateSample
unfolding newest_at
push xs x =
    if ltb 0 (length xs) && ltb (rate_gap + newest_at xs) x.at
    then x ∷ []
    else drop (length xs + 1 - rate_slots) (xs ++ (x ∷ []))

add-IsRing : (w : RateWindow) (x : RateSample) → IsRing w → IsRing (add w x)
unfolding add
add-IsRing w x v = ground arith

length-before : (s : ℕ → RateSample) (next k : ℕ) → length (before s next k) ≡ k
unfolding before
length-before s next zero = refl
length-before s next (suc k) = omega (arith, length-before s next k)

newest_at-before :
    (s : ℕ → RateSample) (next k : ℕ)
    → newest_at (before s next (suc k)) ≡ (s ((next + rate_slots - 1) % rate_slots)).at
unfolding before newest_at
newest_at-before s next zero = refl
newest_at-before s next (suc k) = newest_at-before s next k

-- Writing at `next` and moving past it puts the sample behind those held, while they are fewer than
-- five or the oldest of five goes.
before-write :
    (s : ℕ → RateSample) (next k : ℕ) (x : RateSample)
    → next < rate_slots
    → k < rate_slots
    → before (λ i. if i == next then x else s i) ((next + 1) % rate_slots) (suc k)
      ≡ before s next k ++ (x ∷ [])
unfolding before
before-write s next zero x h k_max =
    let there : ((next + 1) % rate_slots + rate_slots - 1) % rate_slots ≡ next = omega (arith, h) in
    let first : (if ((next + 1) % rate_slots + rate_slots - 1) % rate_slots == next
          then x
          else s (((next + 1) % rate_slots + rate_slots - 1) % rate_slots))
        ≡ x =
      ground (arith, there) in
    ap (λ y. y ∷ []) first
before-write s next (suc k) x h k_max =
    let i = ((next + 1) % rate_slots + rate_slots - suc (suc k)) % rate_slots in
    let j = (next + rate_slots - suc k) % rate_slots in
    let same : i ≡ j = omega (arith, h, k_max) in
    let apart : (i == next) ≡ false = ground (arith, h, k_max) in
    let first : (if i == next then x else s i) ≡ s j = rw apart (ap s same) in
    ap (λ y. y ∷ before (λ i. if i == next then x else s i) ((next + 1) % rate_slots) (suc k)) first
    ∙ ap (λ r. s j ∷ r) (before-write s next k x h (omega (arith, k_max)))

newest-held :
    (w : RateWindow)
    → 0 < w.n
    → newest_at (held w) ≡ (w.s ((w.next + rate_slots - 1) % rate_slots)).at
unfolding held
newest-held w h = from w.n h
  where
    from :
        (k : ℕ)
        → 0 < k
        → newest_at (before w.s w.next k) ≡ (w.s ((w.next + rate_slots - 1) % rate_slots)).at
    from zero h = absurd (omega arith)
    from (suc k) h = newest_at-before w.s w.next k

-- whether the ring starts again, and whether the list does
same_gap :
    (w : RateWindow) (x : RateSample)
    → (ltb 0 (length (held w)) && ltb (rate_gap + newest_at (held w)) x.at)
      ≡ (ltb 0 w.n && ltb (rate_gap + (w.s ((w.next + rate_slots - 1) % rate_slots)).at) x.at)
same_gap w x =
    let size : length (held w) ≡ w.n = unfold held in length-before w.s w.next w.n in
    elim (Bool-cases (ltb 0 w.n)) [
      | inl some_there ↦ let top = newest-held w (ground (arith, some_there)) in rw (size, top) refl
      | inr none_there ↦ rw (size, none_there) refl
    ]

held-grown :
    (w : RateWindow) (x : RateSample) (k : ℕ)
    → IsRing w
    → k < rate_slots
    → before (λ i. if i == w.next then x else w.s i) ((w.next + 1) % rate_slots) (k + 1)
      ≡ before w.s w.next k ++ (x ∷ [])
held-grown w x k v h =
    let step : k + 1 ≡ suc k = omega arith in
    ap (before (λ i. if i == w.next then x else w.s i) ((w.next + 1) % rate_slots)) step
    ∙ before-write w.s w.next k x v.next_max h

-- without a gap
moved :
    (w : RateWindow) (x : RateSample)
    → IsRing w
    → before
        (λ i. if i == w.next then x else w.s i)
        ((w.next + 1) % rate_slots)
        (if ltb w.n rate_slots then w.n + 1 else w.n)
      ≡ drop (length (before w.s w.next w.n) + 1 - rate_slots) (before w.s w.next w.n ++ (x ∷ []))
unfolding before
moved w x v =
    let all = before w.s w.next w.n ++ (x ∷ []) in
    let size = length-before w.s w.next w.n in
    elim (Bool-cases (ltb w.n rate_slots)) [
      | inl fits ↦
          let nothing : length (before w.s w.next w.n) + 1 - rate_slots ≡ 0 =
            ground (arith, size, fits) in
          rw fits (held-grown w x w.n v (ground (arith, fits)) ∙ sym (ap (λ c. drop c all) nothing))
      | inr full ↦
          let five : w.n ≡ 5 = let top = v.n_max in ground (arith, full) in
          let one : length (before w.s w.next w.n) + 1 - rate_slots ≡ 1 =
            omega (arith, size, five) in
          rw full (
            ap (before (λ i. if i == w.next then x else w.s i) ((w.next + 1) % rate_slots)) five
            ∙ held-grown w x 4 v (omega arith)
            ∙ sym (
                ap (λ c. drop c all) one ∙ ap (λ n. drop 1 (before w.s w.next n ++ (x ∷ []))) five))
    ]

-- Adding a sample to the ring of five does to the samples that it holds, the oldest first, what it does
-- to a list: it starts again with the sample after a gap of more than 3 seconds, and else it puts the
-- sample at the end and drops the oldest of six; and the indices of the ring stay in range.
pub held-add :
    (w : RateWindow) (x : RateSample)
    → IsRing w
    → IsRing (add w x) × (held (add w x) ≡ push (held w) x)
unfolding held add push
held-add w x v =
    let size = length-before w.s w.next w.n in
    (
      add-IsRing w x v,
      elim (Bool-cases
          (ltb 0 w.n && ltb (rate_gap + (w.s ((w.next + rate_slots - 1) % rate_slots)).at) x.at)) [
            | inl gap ↦ rw (same_gap w x) (rw gap (held-grown w x 0 v (omega arith)))
            | inr on ↦ rw (same_gap w x) (rw on (moved w x v))
          ],
    )
