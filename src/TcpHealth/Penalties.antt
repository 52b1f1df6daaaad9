-- ===== src/TcpHealth/Penalties.antt =====
-- The entries of the brake stay in bounds, and a key is judged by its own record alone.
use em_wall.Prelude.{
  ℕ, zero, suc, ◌+◌, ◌≤◌, ◌<◌, ◌≡◌, refl, subst, true, Option, none, some, [], Text, text_eq,
  text_beq, lookup, insert, lookup-insert, lookup-prune, IsMap, insert-IsMap, prune-IsMap, arith,
  Option-cases, Bool-cases, inl, inr,
}
use em_wall.TcpHealth.{
  strike_threshold, penalty, last_rung, Entry, Health, admit_entry, admit, stale, prune_locked,
  penalise, strike_entry, or_new, strike, condemn, success, reset,
}

-- The strikes stay below the threshold, the level is a rung of the ladder, and no penalty reaches
-- further than the last rung past the time at which the entry was last touched.
pub record InBounds (e : Entry) : Type 0 where
  pub strikes : e.strikes < strike_threshold
  pub level : e.level ≤ last_rung
  pub until : e.until ≤ e.seen + 60000000000

penalty_max : (n : ℕ) → penalty n ≤ 60000000000
penalty_max zero = omega arith
penalty_max (suc zero) = omega arith
penalty_max (suc (suc n)) = omega arith

admit_entry-InBounds :
    (e : Entry) (now : ℕ) → e.seen ≤ now → InBounds e → InBounds (admit_entry e now).0
unfolding admit_entry
admit_entry-InBounds e now h v = ground arith

strike_entry-InBounds : (e : Entry) (now : ℕ) → InBounds e → InBounds (strike_entry e now).0
unfolding strike_entry
strike_entry-InBounds e now v = ground (arith, penalty_max e.level)

penalise-InBounds : (e : Entry) (now : ℕ) → InBounds e → InBounds (penalise e now).0
unfolding penalise
penalise-InBounds e now v = ground (arith, penalty_max e.level)

admit_entry-seen : (e : Entry) (now : ℕ) → (admit_entry e now).0.seen ≤ now
unfolding admit_entry
admit_entry-seen e now = ground arith

strike_entry-seen : (e : Entry) (now : ℕ) → (strike_entry e now).0.seen ≤ now
unfolding strike_entry penalise
strike_entry-seen e now = ground arith

penalise-seen : (e : Entry) (now : ℕ) → (penalise e now).0.seen ≤ now
unfolding penalise
penalise-seen e now = ground arith

or_new-InBounds : (o : Option Entry) → ((e : Entry) → o ≡ some e → InBounds e) → InBounds (or_new o)
or_new-InBounds none h = omega arith
or_new-InBounds (some e) h = h e refl

-- A valid table: one entry to a key, each in bounds and touched no later than now.
pub record IsValid (h : Health) (now : ℕ) : Type 0 where
  pub keys : IsMap h
  pub entries : (k : Text) (e : Entry) → lookup k h ≡ some e → InBounds e × (e.seen ≤ now)

empty-IsValid : (now : ℕ) → IsValid [] now
unfolding lookup
empty-IsValid now = record { keys = tt; entries = λ k e at. ground arith }

insert-IsValid :
    (h : Health) (k : Text) (e : Entry) (now : ℕ)
    → IsValid h now
    → InBounds e
    → e.seen ≤ now
    → IsValid (insert k e h) now
insert-IsValid h k e now v b t = record {
  keys = insert-IsMap k e h v.keys;
  entries = λ j f at.
      let old = v.entries j f in
      elim (Bool-cases (text_beq k j)) [
        | inl same ↦
            let is_e : e ≡ f = ground (arith, lookup-insert k j e h, at, same) in
            (subst InBounds is_e b, subst (λ x. x.seen ≤ now) is_e t)
        | inr other ↦ old (ground (arith, lookup-insert k j e h, at, other))
      ];
}

prune_locked-IsValid : (h : Health) (now : ℕ) → IsValid h now → IsValid (prune_locked h now) now
unfolding prune_locked
prune_locked-IsValid h now v = record {
  keys = prune-IsMap (stale now) h v.keys;
  entries = λ j f at. elim (Option-cases (lookup j h)) [
    | inl none_ ↦ v.entries j f (ground (arith, lookup-prune (stale now) j h v.keys, at, none_))
    | inr (g, is_g) ↦ v.entries j f (ground (arith, lookup-prune (stale now) j h v.keys, at, is_g))
  ];
}

-- The record that a strike starts from.
start-InBounds :
    (h : Health) (k : Text) (now : ℕ)
    → IsValid h now
    → InBounds (or_new (lookup k (prune_locked h now)))
start-InBounds h k now v =
    or_new-InBounds (lookup k (prune_locked h now))
      (λ e at. ((prune_locked-IsValid h now v).entries k e at).0)

strike-IsValid : (h : Health) (k : Text) (now : ℕ) → IsValid h now → IsValid (strike h k now).0 now
unfolding strike
strike-IsValid h k now v =
    let old = or_new (lookup k (prune_locked h now)) in
    insert-IsValid (prune_locked h now) k (strike_entry old now).0 now
      (prune_locked-IsValid h now v) (strike_entry-InBounds old now (start-InBounds h k now v))
      (strike_entry-seen old now)

condemn-IsValid :
    (h : Health) (k : Text) (now : ℕ) → IsValid h now → IsValid (condemn h k now).0 now
unfolding condemn
condemn-IsValid h k now v =
    let old = or_new (lookup k (prune_locked h now)) in
    insert-IsValid (prune_locked h now) k (penalise old now).0 now (prune_locked-IsValid h now v)
      (penalise-InBounds old now (start-InBounds h k now v)) (penalise-seen old now)

admit-IsValid : (h : Health) (k : Text) (now : ℕ) → IsValid h now → IsValid (admit h k now).0 now
unfolding admit
admit-IsValid h k now v = elim (Option-cases (lookup k h)) [
  | inl none_ ↦ rw (none_, admit) v
  | inr (e, is_e) ↦
      let (b, t) = v.entries k e is_e in
      rw (is_e, admit)
        (insert-IsValid h k (admit_entry e now).0 now v (admit_entry-InBounds e now t b)
          (admit_entry-seen e now))
]

success-IsValid : (h : Health) (k : Text) (now : ℕ) → IsValid h now → IsValid (success h k now) now
unfolding success
success-IsValid h k now v = elim (Option-cases (lookup k h)) [
  | inl none_ ↦ rw (none_, success) v
  | inr (e, is_e) ↦
      rw (is_e, success)
        (insert-IsValid h k (record e { strikes = 0; level = 0; until = 0; seen = now }) now v
          (record { strikes = omega arith; level = omega arith; until = omega arith })
          (omega arith))
]

later-IsValid : (h : Health) (now t : ℕ) → now ≤ t → IsValid h now → IsValid h t
later-IsValid h now t le v = record {
  keys = v.keys;
  entries = λ k e at. let (b, s) = v.entries k e at in (b, omega arith);
}

-- What the daemon calls.
pub data Event : Type 0 where
  connect : Text → Event
  dead : Text → Event
  refused : Text → Event
  carried : Text → Event
  network_changed : Event

unfoldable pub step : Health → Event → ℕ → Health
unfolding admit strike condemn success reset
step h (connect k) now = (admit h k now).0
step h (dead k) now = (strike h k now).0
step h (refused k) now = (condemn h k now).0
step h (carried k) now = success h k now
step h network_changed now = reset h

-- The tables that a run of the daemon reaches, with the time of the last event.
pub data Reachable : Health → ℕ → Type 0 where
  start : Reachable [] 0
  event :
      {h : Health} {now : ℕ} (e : Event) (t : ℕ)
      → now ≤ t
      → Reachable h now
      → Reachable (step h e t) t

step-IsValid : (h : Health) (e : Event) (now : ℕ) → IsValid h now → IsValid (step h e now) now
unfolding reset step
step-IsValid h (connect k) now v = admit-IsValid h k now v
step-IsValid h (dead k) now v = strike-IsValid h k now v
step-IsValid h (refused k) now v = condemn-IsValid h k now v
step-IsValid h (carried k) now v = success-IsValid h k now v
step-IsValid h network_changed now v = empty-IsValid now

-- In every run, whatever the events, their keys and their times: the table holds a key once, the
-- strikes of an entry stay below the threshold, its level is an index of the ladder, its penalty
-- ends at most a minute after the entry was last touched, and no entry was touched in the future.
pub Reachable-IsValid : (h : Health) (now : ℕ) → Reachable h now → IsValid h now
Reachable-IsValid _ _ start = empty-IsValid 0
Reachable-IsValid _ _ (event {h} {now} e t le r) =
    step-IsValid h e t (later-IsValid h now t le (Reachable-IsValid h now r))

-- In every run, a minute after its last event every destination is admitted, whatever was
-- recorded of it.
pub recovers :
    (h : Health) (now : ℕ)
    → Reachable h now
    → (key : Text) (t : ℕ) → now + 60000000000 ≤ t
    → (admit h key t).1 ≡ true
unfolding admit admit_entry step
recovers h now r key t le = elim (Option-cases (lookup key h)) [
  | inl none_ ↦ ground arith
  | inr (e, is_e) ↦
      let (b, s) = (Reachable-IsValid h now r).entries key e is_e in let u = b.until in ground arith
]
