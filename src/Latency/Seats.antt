-- ===== src/Latency/Seats.antt =====
-- What recorded outcomes do to the seat of an upstream.
use em_wall.Prelude.{
  ℕ, ◌+◌, ◌≤◌, ◌<◌, ◌≡◌, ◌∙◌, refl, Bool, true, false, not, ◌&&◌, Option, none, some, List, Text,
  text_eq, text_beq_iff, ltb, lookup, lookup-insert, if◌then◌else◌, arith,
}
use em_wall.Latency.{Sample, suspect, reset_grace}
use em_wall.Latency.Record.{
  Tracker, or_zero, note_outcome, enter_window, mark_outage, turn, judge, record_sample,
  record_outcome, reset, held, lost, seat,
}

fails-note_outcome :
    (s : Sample) (rtt : ℕ) (ok from_traffic : Bool) (now : ℕ)
    → (note_outcome s rtt ok from_traffic now).fails ≡ (if ok then 0 else s.fails + 1)
unfolding note_outcome
fails-note_outcome s rtt true true now = refl
fails-note_outcome s rtt true false now = refl
fails-note_outcome s rtt false true now = refl
fails-note_outcome s rtt false false now = refl

-- The streak of failures is the business of the first step alone.
module _ (m : List (Text × Sample)) (name : Text) where
  fails-enter_window :
      (s : Sample) (ok from_traffic : Bool) (now : ℕ)
      → (enter_window s ok from_traffic now).fails ≡ s.fails
  unfolding enter_window
  fails-enter_window s ok from_traffic now = ground arith

  fails-mark_outage :
      (was : Bool) (s : Sample) (now : ℕ) → (mark_outage m name was s now).fails ≡ s.fails
  unfolding mark_outage
  fails-mark_outage was s now = ground arith

  fails-judge : (s : Sample) (now : ℕ) → (judge m name s now).fails ≡ s.fails
  unfolding judge turn
  fails-judge s now = ground arith

  pub fails-record_sample :
      (s : Sample) (rtt : ℕ) (ok from_traffic : Bool) (now : ℕ)
      → (record_sample m name s rtt ok from_traffic now).fails ≡ (if ok then 0 else s.fails + 1)
  unfolding record_sample
  fails-record_sample s rtt ok from_traffic now =
      let a = note_outcome s rtt ok from_traffic now in
      let b = enter_window a ok from_traffic now in
      fails-judge (mark_outage m name (suspect s) b now) now
      ∙ fails-mark_outage (suspect s) b now
      ∙ fails-enter_window a ok from_traffic now
      ∙ fails-note_outcome s rtt ok from_traffic now

abbrev breaker_is_open : Option Sample → Bool
breaker_is_open none = false
breaker_is_open (some s) = s.is_open

-- The breaker of the name is open.
abbrev pub has_open_breaker : Tracker → Text → Bool
has_open_breaker t name = breaker_is_open (lookup name t.samples)

lookup-record_outcome :
    (t : Tracker) (name : Text) (rtt : ℕ) (ok from_traffic : Bool) (now : ℕ)
    → (not ok && ltb now t.grace_until) ≡ false
    → lookup name (record_outcome t name rtt ok from_traffic now).0.samples
      ≡ some
          (record_sample t.samples name (or_zero (lookup name t.samples)) rtt ok from_traffic now)
unfolding record_outcome
lookup-record_outcome t name rtt ok from_traffic now counted =
    let r =
      record_sample t.samples name (or_zero (lookup name t.samples)) rtt ok from_traffic now in
    ground (arith, lookup-insert name name r t.samples, text_beq_iff name name)

-- A single success, of a probe or of traffic, ends an outage: whatever came before, the name then
-- has its seat for certain unless its breaker is open, at every later time.
pub seat-success :
    (t : Tracker) (name : Text) (rtt : ℕ) (from_traffic : Bool) (now later : ℕ)
    → let u = (record_outcome t name rtt true from_traffic now).0 in
      seat u name later ≡ (if has_open_breaker u name then lost else held)
unfolding seat
seat-success t name rtt from_traffic now later =
    let found = lookup-record_outcome t name rtt true from_traffic now refl in
    let none_failed =
      fails-record_sample t.samples name (or_zero (lookup name t.samples)) rtt true from_traffic
        now in
    ground arith

-- A single failure of a name that has not failed since its last success does not put it in an
-- outage: it keeps its seat unless its breaker is open.
pub seat-failure :
    (t : Tracker) (name : Text) (rtt : ℕ) (from_traffic : Bool) (now later : ℕ)
    → (or_zero (lookup name t.samples)).fails ≡ 0
    → t.grace_until ≤ now
    → let u = (record_outcome t name rtt false from_traffic now).0 in
      seat u name later ≡ (if has_open_breaker u name then lost else held)
unfolding seat
seat-failure t name rtt from_traffic now later clean no_grace =
    let found = lookup-record_outcome t name rtt false from_traffic now (ground arith) in
    let one_failed =
      fails-record_sample t.samples name (or_zero (lookup name t.samples)) rtt false from_traffic
        now in
    ground arith

-- For fifteen seconds after a reset no failure is recorded, of any name: the tracker stays as it
-- was and no change is reported.
pub record_outcome-reset :
    (t : Tracker) (name : Text) (rtt : ℕ) (from_traffic : Bool) (at now : ℕ)
    → now < at + reset_grace
    → ((record_outcome (reset t at) name rtt false from_traffic now).0 ≡ reset t at)
      × ((record_outcome (reset t at) name rtt false from_traffic now).1
          ≡ record { suspect_now = none; open_now = none })
unfolding record_outcome reset
record_outcome-reset t name rtt from_traffic at now early =
    let grace : ltb now (at + reset_grace) ≡ true = ground arith in (rw grace, rw grace)
