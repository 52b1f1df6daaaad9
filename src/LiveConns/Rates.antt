-- ===== src/LiveConns/Rates.antt =====
-- daemon/stalepath.go: the ring of counter samples that the map's rates are taken from. The array is a
-- function of the index. Where a rate is asked for, the model gives the bytes each way and the time
-- they took, which the code divides as floating-point numbers.
pub mod Ring
use em_wall.Prelude.{
  ℕ, zero, suc, ◌+◌, ◌-◌, ◌*◌, ◌/◌, ◌%◌, ◌≤◌, ◌<◌, Bool, true, false, not, ◌&&◌, ◌||◌, Option, none,
  some, List, [], ◌∷◌, ◌==◌, nat_eq, ltb, leb, if◌then◌else◌,
}

abbrev pub rate_slots : ℕ
rate_slots = 5

abbrev pub rate_gap : ℕ
rate_gap = 3000000000

pub record RateSample : Type 0 where
  pub at : ℕ
  pub up : ℕ
  pub down : ℕ

pub record RateWindow : Type 0 where
  pub s : ℕ → RateSample
  pub next : ℕ
  pub n : ℕ

abbrev no_sample : RateSample
no_sample = record { at = 0; up = 0; down = 0 }

abbrev pub empty_window : RateWindow
empty_window = record { s = λ i. no_sample; next = 0; n = 0 }

-- how many samples stay when this one is added: none across a gap
abbrev pub kept : RateWindow → RateSample → ℕ
kept w x =
    if ltb 0 w.n && ltb (rate_gap + (w.s ((w.next + rate_slots - 1) % rate_slots)).at) x.at
    then 0
    else w.n

-- add
unfoldable pub add : RateWindow → RateSample → RateWindow
add w x = record {
  s = λ i. if i == w.next then x else w.s i;
  next = (w.next + 1) % rate_slots;
  n = if ltb (kept w x) rate_slots then kept w x + 1 else kept w x;
}

abbrev pub oldest : RateWindow → RateSample
oldest w = w.s ((w.next + rate_slots - w.n) % rate_slots)

-- rates: the bytes up and down since the oldest sample, never below 0, and the time since it
unfoldable pub rates : RateWindow → RateSample → Option (ℕ × ℕ × ℕ)
rates w cur =
    if w.n == 0 || leb cur.at (oldest w).at
    then none
    else some (cur.up - (oldest w).up, cur.down - (oldest w).down, cur.at - (oldest w).at)
