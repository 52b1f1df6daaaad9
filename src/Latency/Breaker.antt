-- ===== src/Latency/Breaker.antt =====
-- When the breaker of an upstream opens and closes.
use em_wall.Prelude.{
  ℕ, ◌+◌, ◌-◌, ◌*◌, ◌^◌, ◌≤◌, ◌<◌, [], ◌∷◌, All, ◌≡◌, ◌⊎◌, ◌∙◌, sym, ap, subst, Bool, true, false,
  List, Text, nat_eq, text_eq, leb, length, arith, Bool-cases, inl, inr,
}
use em_wall.Latency.{
  Rate, Sample, suspect, is_bad, evaluate_breaker, failure_rate, breaker_cooldown,
  breaker_min_samples, flap_outages, flap_window, cooldown, trim_times,
}
use em_wall.Latency.Record.{judge, record_sample}
use em_wall.Latency.Cooldown.{capped, cooldown_lem}
use em_wall.Latency.Turns.{
  judged, judged-Untouched, MayClose, StaysOpen, turn-is_open, next_trip, record_sample_open,
  judge_opens,
}

-- One recording of a name: the samples of all names, the outcome and the time.
pub record Recording : Type 0 where
  pub samples : List (Text × Sample)
  pub rtt : ℕ
  pub ok : Bool
  pub from_traffic : Bool
  pub at : ℕ

unfoldable pub record_one : Text → Sample → Recording → Sample
unfolding record_sample
record_one name s e = record_sample e.samples name s e.rtt e.ok e.from_traffic e.at

-- The sample of a name after its recordings, one after the other.
unfoldable pub record_all : Text → Sample → List Recording → Sample
unfolding record_one
record_all name s [] = s
record_all name s (e ∷ es) = record_all name (record_one name s e) es

-- The end of the cooldown of a breaker that opened at that time for its trip of that number.
abbrev pub cooled : ℕ → ℕ → ℕ
cooled opened_at trips = opened_at + capped (breaker_cooldown * 2 ^ (trips - 1))

record_one_open :
    (name : Text) (s : Sample) (e : Recording) (at trips : ℕ)
    → StaysOpen s at trips
    → StaysOpen (record_one name s e) at trips
      ⊎ MayClose (record_one name s e) (cooled at trips) e.at
unfolding record_one
record_one_open name s e at trips h =
    let since : s.opened_at + cooldown s ≡ cooled at trips =
      ap (λ d. s.opened_at + d) (cooldown_lem s)
      ∙ ap (λ t. cooled t s.trips) h.1
      ∙ ap (λ n. cooled at n) h.2 in
    let r = record_one name s e in
    elim (record_sample_open e.samples name s e.rtt e.ok e.from_traffic e.at h.0) [
      | inl k ↦ inl (k.0, k.1 ∙ h.1, k.2 ∙ h.2)
      | inr close ↦ inr (subst (λ t. MayClose r t e.at) since close)
    ]

record_all_open :
    (name : Text) (s : Sample) (es : List Recording) (at trips : ℕ)
    → StaysOpen s at trips
    → All (λ e. e.at < cooled at trips) es
    → StaysOpen (record_all name s es) at trips
unfolding record_all
record_all_open name s [] at trips h early = h
record_all_open name s (e ∷ es) at trips h early = elim (record_one_open name s e at trips h) [
  | inl k ↦ record_all_open name (record_one name s e) es at trips k early.1
  | inr close ↦ absurd (let late = close.0 in let soon = early.0 in omega arith)
]

record_one_opens :
    (name : Text) (s : Sample) (e : Recording)
    → s.is_open ≡ false
    → (record_one name s e).is_open ≡ true
    → StaysOpen (record_one name s e) e.at (next_trip s e.at)
unfolding record_one record_sample
record_one_opens name s e closed opens =
    let c = judged e.samples name s e.rtt e.ok e.from_traffic e.at in
    let u = judged-Untouched e.samples name s e.rtt e.ok e.from_traffic e.at in
    let same : next_trip c e.at ≡ next_trip s e.at =
      let a = u.closed_at in let b = u.trips in ground arith in
    let k = judge_opens e.samples name c e.at (u.is_open ∙ closed) opens in (k.0, k.1, k.2 ∙ same)

-- A recording opens a closed breaker at its time. The cooldown is 30 seconds, doubled for every trip
-- after the first, ten minutes at most, where the trips count anew once the breaker has been closed for
-- more than the 15 minutes they are remembered. Recordings of that name before the cooldown ends, as many as there are and
-- whatever they and the other samples say, leave it open, with the time and the trip it opened with.
-- The next recording leaves it so too, or it comes at or after the end of the cooldown, with at least
-- four recent outcomes of which a fifth at most failed and the last two succeeded.
pub stays_open :
    (name : Text) (s : Sample) (first : Recording) (es : List Recording) (next : Recording)
    → s.is_open ≡ false
    → (record_one name s first).is_open ≡ true
    → All (λ e. e.at < cooled first.at (next_trip s first.at)) es
    → StaysOpen (record_all name (record_one name s first) es) first.at (next_trip s first.at)
      × (StaysOpen
            (record_one name (record_all name (record_one name s first) es) next)
            first.at
            (next_trip s first.at)
          ⊎ MayClose
              (record_one name (record_all name (record_one name s first) es) next)
              (cooled first.at (next_trip s first.at))
              next.at)
stays_open name s first es next closed opens early =
    let opened = record_one_opens name s first closed opens in
    let open_still =
      record_all_open name (record_one name s first) es first.at (next_trip s first.at) opened
        early in
    (
      open_still,
      record_one_open name (record_all name (record_one name s first) es) next first.at
          (next_trip s first.at) open_still,
    )

-- What a closed breaker needs to open.
abbrev pub MayOpen : Sample → ℕ → Type 0
MayOpen c now =
    (flap_outages ≤ length (trim_times c.outages now flap_window))
    ⊎ ((suspect c ≡ false)
        × (breaker_min_samples ≤ length c.window)
        × (is_bad (failure_rate c.window) ≡ true))

evaluate_closed :
    (c : Sample) (now : ℕ) (baseline : Rate)
    → c.is_open ≡ false
    → evaluate_breaker c (failure_rate c.window) (length c.window) now baseline ≡ true
    → MayOpen c now
unfolding evaluate_breaker
evaluate_closed c now baseline h e =
    elim (Bool-cases (leb flap_outages (length (trim_times c.outages now flap_window)))) [
      | inl flaps ↦ inl (ground arith)
      | inr steady ↦ inr (ground arith, ground arith, ground arith)
    ]

-- A closed breaker opens only on a third outage within ten minutes, or, outside of an outage, on at
-- least four recent outcomes of which two fifths failed.
pub opens_only :
    (m : List (Text × Sample)) (name : Text) (s : Sample) (rtt : ℕ) (ok from_traffic : Bool)
    (now : ℕ)
    → s.is_open ≡ false
    → (record_sample m name s rtt ok from_traffic now).is_open ≡ true
    → MayOpen (judged m name s rtt ok from_traffic now) now
unfolding record_sample judge
opens_only m name s rtt ok from_traffic now closed e =
    let c = judged m name s rtt ok from_traffic now in
    let u = judged-Untouched m name s rtt ok from_traffic now in
    evaluate_closed c now _ (u.is_open ∙ closed) (sym (turn-is_open c _ now) ∙ e)
