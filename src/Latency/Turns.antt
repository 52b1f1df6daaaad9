-- ===== src/Latency/Turns.antt =====
-- One recording: what it makes of an open and of a closed breaker.
use em_wall.Prelude.{
  ℕ, ◌+◌, ◌≤◌, ◌==◌, ◌≡◌, ◌⊎◌, ◌∙◌, sym, subst, Bool, true, false, not, ◌&&◌, ◌||◌, List, Text,
  nat_eq, text_eq, ltb, length, if◌then◌else◌, arith, Bool-cases, inl, inr,
}
use em_wall.Latency.{
  Rate, Sample, suspect, is_bad, not_clean, ends_with_successes, evaluate_breaker, failure_rate,
  breaker_trip_memory, breaker_min_samples, breaker_close_streak, cooldown,
}
use em_wall.Latency.Record.{
  note_outcome, enter_window, mark_outage, turn, judge, record_sample, peer_failure_rate,
}
use em_wall.Latency.Cooldown.{cooldown-trips}

-- The sample that the breaker judges.
abbrev pub judged : List (Text × Sample) → Text → Sample → ℕ → Bool → Bool → ℕ → Sample
judged m name s rtt ok from_traffic now =
    mark_outage m name (suspect s)
      (enter_window (note_outcome s rtt ok from_traffic now) ok from_traffic now) now

pub record Untouched (s c : Sample) : Type 0 where
  pub is_open : c.is_open ≡ s.is_open
  pub opened_at : c.opened_at ≡ s.opened_at
  pub closed_at : c.closed_at ≡ s.closed_at
  pub trips : c.trips ≡ s.trips

pub judged-Untouched :
    (m : List (Text × Sample)) (name : Text) (s : Sample) (rtt : ℕ) (ok from_traffic : Bool)
    (now : ℕ)
    → Untouched s (judged m name s rtt ok from_traffic now)
unfolding note_outcome enter_window mark_outage
judged-Untouched m name s rtt true true now = record {
  is_open = ground arith;
  opened_at = ground arith;
  closed_at = ground arith;
  trips = ground arith;
}
judged-Untouched m name s rtt true false now = record {
  is_open = ground arith;
  opened_at = ground arith;
  closed_at = ground arith;
  trips = ground arith;
}
judged-Untouched m name s rtt false true now = record {
  is_open = ground arith;
  opened_at = ground arith;
  closed_at = ground arith;
  trips = ground arith;
}
judged-Untouched m name s rtt false false now = record {
  is_open = ground arith;
  opened_at = ground arith;
  closed_at = ground arith;
  trips = ground arith;
}

-- What an open breaker needs to close.
abbrev pub MayClose : Sample → ℕ → ℕ → Type 0
MayClose r until now =
    (until ≤ now)
    × (breaker_min_samples ≤ length r.window)
    × (not_clean (failure_rate r.window) ≡ false)
    × (ends_with_successes r.window breaker_close_streak ≡ true)

-- The breaker is open since the time and for the trip that are given.
abbrev pub StaysOpen : Sample → ℕ → ℕ → Type 0
StaysOpen r opened_at trips = (r.is_open ≡ true) × (r.opened_at ≡ opened_at) × (r.trips ≡ trips)

turn-window : (s : Sample) (is_open : Bool) (now : ℕ) → (turn s is_open now).window ≡ s.window
unfolding turn
turn-window s is_open now = ground arith

pub turn-is_open : (s : Sample) (is_open : Bool) (now : ℕ) → (turn s is_open now).is_open ≡ is_open
unfolding turn
turn-is_open s is_open now = ground arith

turn-opened_at :
    (s : Sample) (is_open : Bool) (now : ℕ)
    → s.is_open ≡ true
    → ((turn s is_open now).opened_at ≡ s.opened_at) × ((turn s is_open now).trips ≡ s.trips)
unfolding turn
turn-opened_at s is_open now h = (ground arith, ground arith)

evaluate_open :
    (c : Sample) (rate : Rate) (n now : ℕ) (baseline : Rate)
    → c.is_open ≡ true
    → (evaluate_breaker c rate n now baseline ≡ true)
      ⊎ ((c.opened_at + cooldown c ≤ now)
          × (breaker_min_samples ≤ n)
          × (not_clean rate ≡ false)
          × (ends_with_successes c.window breaker_close_streak ≡ true))
unfolding evaluate_breaker
evaluate_open c rate n now baseline h = elim (Bool-cases (ltb now (c.opened_at + cooldown c))) [
  | inl early ↦ inl (ground arith)
  | inr late ↦ elim (Bool-cases (ltb n breaker_min_samples || not_clean rate)) [
    | inl dirty ↦ inl (ground arith)
    | inr clean ↦ elim (Bool-cases (ends_with_successes c.window breaker_close_streak)) [
      | inl good ↦ inr (ground arith, ground arith, ground arith, good)
      | inr bad ↦ inl (ground arith)
    ]
  ]
]

judge_open :
    (m : List (Text × Sample)) (name : Text) (c : Sample) (now : ℕ)
    → c.is_open ≡ true
    → StaysOpen (judge m name c now) c.opened_at c.trips
      ⊎ MayClose (judge m name c now) (c.opened_at + cooldown c) now
unfolding judge
judge_open m name c now h =
    let rate = failure_rate c.window in
    let baseline =
      if not c.is_open && is_bad rate
      then peer_failure_rate m name now
      else record { bad = 0; total = 1 } in
    let verdict = evaluate_breaker c rate (length c.window) now baseline in
    elim (evaluate_open c rate (length c.window) now baseline h) [
      | inl e ↦
          inl (let k = turn-opened_at c verdict now h in (turn-is_open c verdict now ∙ e, k.0, k.1))
      | inr close ↦ inr (
          subst
            (λ w.
              (c.opened_at + cooldown c ≤ now)
              × (breaker_min_samples ≤ length w)
              × (not_clean (failure_rate w) ≡ false)
              × (ends_with_successes w breaker_close_streak ≡ true))
            (sym (turn-window c verdict now)) close)
    ]

pub record_sample_open :
    (m : List (Text × Sample)) (name : Text) (s : Sample) (rtt : ℕ) (ok from_traffic : Bool)
    (now : ℕ)
    → s.is_open ≡ true
    → StaysOpen (record_sample m name s rtt ok from_traffic now) s.opened_at s.trips
      ⊎ MayClose (record_sample m name s rtt ok from_traffic now) (s.opened_at + cooldown s) now
unfolding record_sample
record_sample_open m name s rtt ok from_traffic now open_before =
    let c = judged m name s rtt ok from_traffic now in
    let u = judged-Untouched m name s rtt ok from_traffic now in
    let until : c.opened_at + cooldown c ≡ s.opened_at + cooldown s =
      cc (u.opened_at, cooldown-trips c s u.trips) in
    elim (judge_open m name c now (u.is_open ∙ open_before)) [
      | inl (e, at, trips) ↦ inl (e, at ∙ u.opened_at, trips ∙ u.trips)
      | inr close ↦ inr (subst (λ t. MayClose (judge m name c now) t now) until close)
    ]

-- The trip by which a breaker opens: the first one again, when it has been closed for long.
abbrev pub next_trip : Sample → ℕ → ℕ
next_trip s now =
    if not (s.closed_at == 0) && ltb (s.closed_at + breaker_trip_memory) now then 1 else s.trips + 1

turn_opens :
    (s : Sample) (is_open : Bool) (now : ℕ)
    → s.is_open ≡ false
    → (turn s is_open now).is_open ≡ true
    → StaysOpen (turn s is_open now) now (next_trip s now)
unfolding turn
turn_opens s is_open now closed opens = (opens, ground arith, ground arith)

pub judge_opens :
    (m : List (Text × Sample)) (name : Text) (c : Sample) (now : ℕ)
    → c.is_open ≡ false
    → (judge m name c now).is_open ≡ true
    → StaysOpen (judge m name c now) now (next_trip c now)
unfolding judge
judge_opens m name c now closed opens = turn_opens c _ now closed opens
