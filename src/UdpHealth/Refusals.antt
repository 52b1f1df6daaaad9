-- ===== src/UdpHealth/Refusals.antt =====
-- When datagrams to a destination are refused.
use em_wall.Prelude.{
  ℕ, ◌+◌, ◌≤◌, ◌≡◌, ◌≢◌, ◌∙◌, false, Option, none, some, Text, text_eq, text_beq_iff, ltb, lookup,
  insert, lookup-insert, lookup-prune, IsMap, insert-IsMap, prune-IsMap, arith, Option-cases, inl,
  inr,
}
use em_wall.UdpHealth.{
  entry_ttl, Entry, Health, blocked, stale, prune_locked, strike_entry, or_new, strike, success,
}

-- The end of the refusal of a destination, the zero time if there is none.
abbrev until_of : Option Entry → ℕ
until_of none = 0
until_of (some e) = e.until

pub blocked_until :
    (h : Health) (k : Text) (t : ℕ) → (blocked h k t).1 ≡ ltb t (until_of (lookup k h))
unfolding blocked
blocked_until h k t = elim (Option-cases (lookup k h)) [
  | inl none_ ↦ ground arith
  | inr (e, is_e) ↦ ground arith
]

blocked-prune :
    (h : Health) (j : Text) (now t : ℕ)
    → IsMap h
    → now ≤ t
    → (blocked (prune_locked h now) j t).1 ≡ (blocked h j t).1
unfolding prune_locked
blocked-prune h j now t m le = elim (Option-cases (lookup j h)) [
  | inl none_ ↦ ground (
    arith,
    lookup-prune (stale now) j h m,
    blocked_until h j t,
    blocked_until (prune_locked h now) j t,
  )
  | inr (e, is_e) ↦ ground (
    arith,
    lookup-prune (stale now) j h m,
    blocked_until h j t,
    blocked_until (prune_locked h now) j t,
  )
]

blocked-blocked :
    (h : Health) (i j : Text) (now t : ℕ) → (blocked (blocked h i now).0 j t).1 ≡ (blocked h j t).1
unfolding blocked
blocked-blocked h i j now t = elim (Option-cases (lookup i h)) [
  | inl none_ ↦ ground arith
  | inr (e, is_e) ↦ ground (arith, lookup-insert i j (record e { seen = now }) h, text_beq_iff i j)
]

-- On a table that holds a key once, a dead flow of one destination and the check of another never
-- change whether datagrams to a third, or to the checked one, are refused at that time or later.
pub blocked-strike :
    (h : Health) (k j i : Text) (now t : ℕ)
    → IsMap h
    → k ≢ j
    → now ≤ t
    → ((blocked (strike h k now).0 j t).1 ≡ (blocked h j t).1)
      × ((blocked (blocked h i now).0 j t).1 ≡ (blocked h j t).1)
unfolding strike
blocked-strike h k j i now t m ne le =
    let e = (strike_entry (or_new (lookup k (prune_locked h now))) now).0 in
    (
      ground (
        arith,
        blocked_until (prune_locked h now) j t,
        blocked_until (insert k e (prune_locked h now)) j t,
        lookup-insert k j e (prune_locked h now),
        text_beq_iff k j,
      )
          ∙ blocked-prune h j now t m le,
      blocked-blocked h i j now t,
    )

-- What a strike leaves of an entry that is not too old.
until-strike :
    (h : Health) (k : Text) (e : Entry) (now : ℕ)
    → IsMap h
    → lookup k h ≡ some e
    → now ≤ e.seen + entry_ttl
    → lookup k (strike h k now).0 ≡ some (strike_entry e now).0
unfolding strike prune_locked
until-strike h k e now m is_e le = ground (
  arith,
  lookup-prune (stale now) k h m,
  lookup-insert k k (strike_entry e now).0 (prune_locked h now),
  text_beq_iff k k,
)

-- On a table that holds a key once, a destination without a record is refused after two dead flows
-- within the entries' lifetime of each other, and not after the first: from the second on, for five
-- minutes. A flow that carried something in between undoes the first.
pub blocked-strikes :
    (h : Health) (k : Text) (a b t : ℕ)
    → IsMap h
    → lookup k h ≡ none
    → a ≤ b
    → b ≤ a + entry_ttl
    → b ≤ t
    → ((blocked (strike h k a).0 k b).1 ≡ false)
      × (((blocked (strike (strike h k a).0 k b).0 k t).1 ≡ ltb t (b + 300000000000))
          × ((blocked (strike (success (strike h k a).0 k a) k b).0 k t).1 ≡ false))
unfolding strike strike_entry success prune_locked
blocked-strikes h k a b t m none_ le life le2 =
    let p = prune_locked h a in
    let pm = prune-IsMap (stale a) h m in
    let e : Entry = record { strikes = 1; level = 0; until = 0; seen = a } in
    let z : Entry = record { strikes = 0; level = 0; until = 0; seen = a } in
    let once : (strike h k a).0 ≡ insert k e p = ground (arith, lookup-prune (stale a) k h m) in
    let w = insert k e p in
    let w_at : lookup k w ≡ some e = ground (arith, lookup-insert k k e p, text_beq_iff k k) in
    let v_at : lookup k (success w k a) ≡ some z =
      ground (arith, lookup-insert k k z w, text_beq_iff k k) in
    let v_map : IsMap (success w k a) =
      ground (arith, insert-IsMap k z w (insert-IsMap k e p pm)) in
    let twice = until-strike w k e b (insert-IsMap k e p pm) w_at (omega arith) in
    let again = until-strike (success w k a) k z b v_map v_at (omega arith) in
    (
      ground (arith, blocked_until (strike h k a).0 k b),
      (
        ground (arith, blocked_until (strike (strike h k a).0 k b).0 k t),
        ground (arith, blocked_until (strike (success (strike h k a).0 k a) k b).0 k t),
      ),
    )
