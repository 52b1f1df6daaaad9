-- ===== src/Latency/Bounds.antt =====
-- The windows of a sample stay bounded.
use em_wall.Prelude.{
  ℕ, ◌-◌, ◌≤◌, ◌≡◌, refl, subst, Bool, true, false, not, ◌&&◌, Option, none, some, List, [], ◌∷◌,
  ◌++◌, Text, nat_eq, text_eq, text_beq, ltb, length, length-append, length-drop, lookup,
  lookup-insert, arith, Bool-cases, Option-cases, inl, inr,
}
use em_wall.Latency.{
  Outcome, Sample, suspect, rtt_samples, breaker_window, keep_last, trim_outcomes, append_outcome,
  strip_failures, all_but_last, last_of, clear_outage, failure_rate,
}
use em_wall.Latency.Record.{
  Tracker, or_zero, note_outcome, enter_window, mark_outage, turn, judge, record_sample,
  record_outcome, reset,
}

length-keep_last {ℓ} : {A : Type ℓ} (n : ℕ) (xs : List A) → length (keep_last n xs) ≤ n
length-keep_last n xs = ground (arith, length-drop (length xs - n) xs)

length-trim_outcomes : (w : List Outcome) (now : ℕ) → length (trim_outcomes w now) ≤ length w
unfolding trim_outcomes
length-trim_outcomes [] now = omega arith
length-trim_outcomes (o ∷ w) now = ground (arith, length-trim_outcomes w now)

length-append_outcome :
    (w : List Outcome) (o : Outcome) (now : ℕ) → length (append_outcome w o now) ≤ breaker_window
unfolding append_outcome
length-append_outcome w o now = length-keep_last breaker_window (trim_outcomes w now ++ (o ∷ []))

length-strip_failures : (w : List Outcome) → length (strip_failures w) ≤ length w
unfolding strip_failures
length-strip_failures [] = omega arith
length-strip_failures (o ∷ w) = ground (arith, length-strip_failures w)

length-all_but_last : (o : Outcome) (w : List Outcome) → length (all_but_last (o ∷ w)) ≡ length w
length-all_but_last o [] = omega arith
length-all_but_last o (p ∷ w) = omega (arith, length-all_but_last p w)

length-clear_outage : (w : List Outcome) → length (clear_outage w) ≤ length w
unfolding clear_outage
length-clear_outage [] = omega arith
length-clear_outage (o ∷ w) = elim (Option-cases (last_of (o ∷ w))) [
  | inl e ↦ rw (e, clear_outage) (omega arith)
  | inr (p, e) ↦
      let kept = strip_failures (all_but_last (o ∷ w)) in
      let joined = length-append kept (p ∷ []) in
      let shorter = length-strip_failures (all_but_last (o ∷ w)) in
      let one_less = length-all_but_last o w in
      let whole = length-strip_failures (o ∷ w) in simp (e, clear_outage) (ground arith)
]

-- The window of outcomes and the recent probe times of a sample, within their sizes.
pub record InBounds (s : Sample) : Type 0 where
  pub window : length s.window ≤ breaker_window
  pub rtts : length s.rtts ≤ rtt_samples

note_outcome-InBounds :
    (s : Sample) (rtt : ℕ) (ok from_traffic : Bool) (now : ℕ)
    → InBounds s
    → InBounds (note_outcome s rtt ok from_traffic now)
unfolding note_outcome
note_outcome-InBounds s rtt true true now v = record { window = v.window; rtts = v.rtts }
note_outcome-InBounds s rtt true false now v = record {
  window = v.window;
  rtts = length-keep_last rtt_samples (s.rtts ++ (rtt ∷ []));
}
note_outcome-InBounds s rtt false true now v = record { window = v.window; rtts = v.rtts }
note_outcome-InBounds s rtt false false now v = record { window = v.window; rtts = v.rtts }

enter_window-InBounds :
    (s : Sample) (ok from_traffic : Bool) (now : ℕ)
    → InBounds s
    → InBounds (enter_window s ok from_traffic now)
unfolding enter_window
enter_window-InBounds s ok from_traffic now v =
    let a = length-append_outcome s.window (record { ok = ok; at = now }) now in
    let b = length-trim_outcomes s.window now in
    let w = v.window in let r = v.rtts in record { window = ground arith; rtts = ground arith }

mark_outage-InBounds :
    (m : List (Text × Sample)) (name : Text) (was : Bool) (s : Sample) (now : ℕ)
    → InBounds s
    → InBounds (mark_outage m name was s now)
unfolding mark_outage
mark_outage-InBounds m name was s now v =
    let c = length-clear_outage s.window in
    let w = v.window in let r = v.rtts in record { window = ground arith; rtts = ground arith }

turn-InBounds : (s : Sample) (is_open : Bool) (now : ℕ) → InBounds s → InBounds (turn s is_open now)
unfolding turn
turn-InBounds s is_open now v =
    let w = v.window in let r = v.rtts in record { window = ground arith; rtts = ground arith }

record_sample-InBounds :
    (m : List (Text × Sample)) (name : Text) (s : Sample) (rtt : ℕ) (ok from_traffic : Bool)
    (now : ℕ)
    → InBounds s
    → InBounds (record_sample m name s rtt ok from_traffic now)
unfolding record_sample judge
record_sample-InBounds m name s rtt ok from_traffic now v =
    let a = note_outcome s rtt ok from_traffic now in
    let b = enter_window a ok from_traffic now in
    let c = mark_outage m name (suspect s) b now in
    let rate = failure_rate c.window in
    turn-InBounds c _ now (
      mark_outage-InBounds m name (suspect s) b now (
        enter_window-InBounds a ok from_traffic now
          (note_outcome-InBounds s rtt ok from_traffic now v)))

-- Every sample of a tracker is within its sizes.
abbrev pub IsBounded : Tracker → Type 0
IsBounded t = (n : Text) (s : Sample) → lookup n t.samples ≡ some s → InBounds s

or_zero-InBounds :
    (o : Option Sample) → ((s : Sample) → o ≡ some s → InBounds s) → InBounds (or_zero o)
or_zero-InBounds none h = record { window = omega arith; rtts = omega arith }
or_zero-InBounds (some s) h = h s refl

-- Whatever is recorded, of a probe or of traffic, of any name and at any time, a tracker keeps at
-- most ten outcomes and five probe times of each name, if it did before; a new or reset one does.
pub record_outcome-IsBounded :
    (t : Tracker) (name : Text) (rtt : ℕ) (ok from_traffic : Bool) (now : ℕ)
    → IsBounded t
    → IsBounded (record_outcome t name rtt ok from_traffic now).0 × IsBounded (reset t now)
unfolding record_outcome reset lookup
record_outcome-IsBounded t name rtt ok from_traffic now v =
    let old = or_zero (lookup name t.samples) in
    let r = record_sample t.samples name old rtt ok from_traffic now in
    let b =
      record_sample-InBounds t.samples name old rtt ok from_traffic now
        (or_zero-InBounds (lookup name t.samples) (v name)) in
    (
      elim (Bool-cases (not ok && ltb now t.grace_until)) [
        | inl ignored ↦ rw (ignored, record_outcome) v
        | inr counted ↦
            rw (counted, record_outcome)
              (λ n s at. elim (Bool-cases (text_beq name n)) [
                | inl here ↦
                    let is_r : r ≡ s = ground (arith, lookup-insert name n r t.samples, at, here) in
                    subst InBounds is_r b
                | inr other ↦ v n s (ground (arith, lookup-insert name n r t.samples, at, other))
              ])
      ],
      λ n s at. cc,
    )
