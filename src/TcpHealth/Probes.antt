-- ===== src/TcpHealth/Probes.antt =====
-- What one key's records say to its own connections, and to those of the others.
use em_wall.Prelude.{
  ℕ, zero, suc, ◌+◌, ◌≤◌, ◌<◌, ◌≡◌, ◌≢◌, ◌∙◌, true, none, some, Text, text_eq, text_beq_iff, leb,
  lookup, insert, lookup-insert, lookup-prune, IsMap, insert-IsMap, prune-IsMap, arith,
  Option-cases, inl, inr,
}
use em_wall.TcpHealth.{
  probe_interval, penalty, Entry, Health, admit_entry, admit, stale, prune_locked, penalise,
  strike_entry, or_new, strike, condemn, success,
}

-- An entry that pruning drops admits its connections, as a missing one does.
admit-prune :
    (h : Health) (j : Text) (now t : ℕ)
    → IsMap h
    → now ≤ t
    → (admit (prune_locked h now) j t).1 ≡ (admit h j t).1
unfolding admit prune_locked admit_entry
admit-prune h j now t m le = elim (Option-cases (lookup j h)) [
  | inl none_ ↦ ground (arith, lookup-prune (stale now) j h m)
  | inr (e, is_e) ↦ ground (arith, lookup-prune (stale now) j h m)
]

admit-insert :
    (h : Health) (k j : Text) (e : Entry) (t : ℕ)
    → k ≢ j
    → (admit (insert k e h) j t).1 ≡ (admit h j t).1
unfolding admit
admit-insert h k j e t ne =
    let at : lookup j (insert k e h) ≡ lookup j h =
      ground (arith, lookup-insert k j e h, text_beq_iff k j) in
    elim (Option-cases (lookup j h)) [ inl none_ ↦ ground arith | inr (f, is_f) ↦ ground arith ]

-- On a table that holds a key once, failures of one destination, counted or condemned, never
-- change whether a connection to another destination is admitted at that time or later.
pub admit-strike :
    (h : Health) (k j : Text) (now t : ℕ)
    → IsMap h
    → k ≢ j
    → now ≤ t
    → ((admit (strike h k now).0 j t).1 ≡ (admit h j t).1)
      × ((admit (condemn h k now).0 j t).1 ≡ (admit h j t).1)
unfolding strike condemn
admit-strike h k j now t m ne le =
    let old = or_new (lookup k (prune_locked h now)) in
    (
      admit-insert (prune_locked h now) k j (strike_entry old now).0 t ne
          ∙ admit-prune h j now t m le,
      admit-insert (prune_locked h now) k j (penalise old now).0 t ne ∙ admit-prune h j now t m le,
    )

penalty_min : (n : ℕ) → 5000000000 ≤ penalty n
penalty_min zero = omega arith
penalty_min (suc zero) = omega arith
penalty_min (suc (suc n)) = omega arith

-- A condemned destination, whatever was recorded of it, is penalised for at least five
-- seconds: once a connection was admitted in that time as a probe, the next ones are refused until
-- a second has passed, and the first one after that second is admitted again.
pub admit-condemn :
    (h : Health) (k : Text) (now p t : ℕ)
    → now ≤ p
    → p ≤ t
    → t < now + 5000000000
    → (admit (condemn h k now).0 k p).1 ≡ true
    → (admit (admit (condemn h k now).0 k p).0 k t).1 ≡ leb (p + probe_interval) t
unfolding admit condemn penalise admit_entry
admit-condemn h k now p t le le2 lt yes_ =
    let old = or_new (lookup k (prune_locked h now)) in
    let e = (penalise old now).0 in
    let f = (admit_entry e p).0 in
    let long = penalty_min old.level in
    ground (
      arith,
      lookup-insert k k e (prune_locked h now),
      lookup-insert k k f (insert k e (prune_locked h now)),
      text_beq_iff k k,
    )

-- One byte back is enough: after a success the destination is admitted at every time,
-- and the strikes and the rung it had are forgotten.
pub admit-success :
    (h : Health) (k : Text) (now t : ℕ)
    → ((admit (success h k now) k t).1 ≡ true)
      × ((e : Entry) → lookup k (success h k now) ≡ some e → (e.strikes ≡ 0) × (e.level ≡ 0))
unfolding admit success admit_entry
admit-success h k now t = elim (Option-cases (lookup k h)) [
  | inl none_ ↦ (ground arith, λ e at. ground arith)
  | inr (e, is_e) ↦ (
    ground (
      arith,
      lookup-insert k k (record e { strikes = 0; level = 0; until = 0; seen = now }) h,
      text_beq_iff k k,
    ),
    λ f at. ground (
      arith,
      lookup-insert k k (record e { strikes = 0; level = 0; until = 0; seen = now }) h,
      text_beq_iff k k,
    ),
  )
]

-- On a table that holds a key once, for a destination without a record that is condemned: a failure
-- that lands in the five seconds of this first penalty lengthens it to twenty seconds from that
-- failure, the length of the second rung, and reports no new penalty.
pub strike-condemn :
    (h : Health) (k : Text) (a b : ℕ)
    → IsMap h
    → lookup k h ≡ none
    → a ≤ b
    → b < a + 5000000000
    → ((strike (condemn h k a).0 k b).1 ≡ 0)
      × (lookup k (strike (condemn h k a).0 k b).0
          ≡ some (record {
            strikes = 0;
            level = 1;
            until = b + 20000000000;
            last_probe = 0;
            seen = b;
          }))
unfolding strike condemn penalise strike_entry prune_locked
strike-condemn h k a b m none_ le lt =
    let e : Entry = record {
      strikes = 0;
      level = 1;
      until = a + 5000000000;
      last_probe = 0;
      seen = a;
    } in
    let fresh : lookup k (prune_locked h a) ≡ none = ground (arith, lookup-prune (stale a) k h m) in
    let first : (condemn h k a).0 ≡ insert k e (prune_locked h a) = ground (arith) in
    let m2 = insert-IsMap k e (prune_locked h a) (prune-IsMap (stale a) h m) in
    let pruned : lookup k (prune_locked (condemn h k a).0 b) ≡ some e = ground (
      arith,
      lookup-prune (stale b) k (insert k e (prune_locked h a)) m2,
      lookup-insert k k e (prune_locked h a),
      text_beq_iff k k,
    ) in
    let f : Entry = record e { until = b + 20000000000; seen = b } in
    (
      ground arith,
      ground (arith, lookup-insert k k f (prune_locked (condemn h k a).0 b), text_beq_iff k k),
    )
