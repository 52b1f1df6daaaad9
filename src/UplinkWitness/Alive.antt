-- ===== src/UplinkWitness/Alive.antt =====
-- What the witness says after an upstream carried data.
use em_wall.Prelude.{
  ℕ, ◌+◌, ◌<◌, ◌≡◌, ◌≢◌, ◌↔◌, true, false, not, ◌&&◌, some, [], ◌∷◌, Text, ◌==◌, text_eq,
  text_beq_iff, ltb, lookup, insert, delete, lookup-insert, arith, Bool-cases, inl, inr, IsMap,
}
use em_wall.UplinkWitness.{
  UplinkWitness, witness_window, proof_window, saw, recent, other_alive, any_proven,
}

-- Another upstream carried data within the window.
abbrev pub IsOtherAlive : UplinkWitness → Text → ℕ → Type 0
IsOtherAlive w name now =
    (n : Text) × (n ≢ name) × (t : ℕ) × (lookup n w ≡ some t) × (now < t + witness_window)

other_alive_sound :
    (w : UplinkWitness) (name : Text) (now : ℕ)
    → IsMap w
    → other_alive w name now ≡ true
    → IsOtherAlive w name now
unfolding other_alive lookup
other_alive_sound [] name now m h = cc
other_alive_sound ((k, u) ∷ w) name now m h =
    elim (Bool-cases (not (k == name) && recent witness_window now u)) [
      | inl here ↦ (
        k,
        (λ e. ground (arith, text_beq_iff k name)),
        u,
        ground (arith, text_beq_iff k k),
        ground arith,
      )
      | inr other ↦
          let (n, ne, t, at, lt) = other_alive_sound w name now m.1 (ground arith) in
          (n, ne, t, ground (arith, text_beq_iff k n, m.0), lt)
    ]

other_alive_complete :
    (w : UplinkWitness) (name : Text) (now : ℕ) (n : Text) (t : ℕ)
    → n ≢ name
    → lookup n w ≡ some t
    → now < t + witness_window
    → other_alive w name now ≡ true
unfolding other_alive lookup
other_alive_complete [] name now n t ne at lt = cc
other_alive_complete ((k, u) ∷ w) name now n t ne at lt = elim (Bool-cases (k == n)) [
  | inl here ↦ ground (arith, text_beq_iff k n, text_beq_iff k name)
  | inr other ↦ let rest = other_alive_complete w name now n t ne (ground arith) lt in ground arith
]

-- On a map that holds a name once, the witness says that another upstream is alive exactly if the
-- time stored for some other name is less than ten seconds ago.
pub other_alive_iff :
    (w : UplinkWitness) (name : Text) (now : ℕ)
    → IsMap w
    → (other_alive w name now ≡ true) ↔ IsOtherAlive w name now
other_alive_iff w name now m = (
  other_alive_sound w name now m,
  λ (n, ne, t, at, lt). other_alive_complete w name now n t ne at lt,
)

saw_only : (name : Text) (at now : ℕ) → other_alive (saw [] name at) name now ≡ false
unfolding other_alive saw insert delete
saw_only name at now = ground (arith, text_beq_iff name name)

-- An upstream that carried data vouches for the link of every other upstream for ten seconds, and
-- for its own exit for exactly sixty; where it alone was seen, it does not vouch for its own link.
pub other_alive-saw :
    (w : UplinkWitness) (name other : Text) (at now : ℕ)
    → name ≢ other
    → ((now < at + witness_window → other_alive (saw w name at) other now ≡ true)
        × (other_alive (saw [] name at) name now ≡ false))
      × (any_proven (saw w name at) (name ∷ []) now ≡ ltb now (at + proof_window))
unfolding saw any_proven
other_alive-saw w name other at now ne =
    let found : lookup name (insert name at w) ≡ some at =
      ground (arith, lookup-insert name name at w, text_beq_iff name name) in
    (
      (
        λ lt. other_alive_complete (insert name at w) other now name at ne found lt,
        saw_only name at now,
      ),
      ground arith,
    )
