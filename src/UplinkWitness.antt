-- ===== src/UplinkWitness.antt =====
-- daemon/uplink_witness.go: when each upstream last carried data. Times are nanoseconds, the clock an
-- argument, and the receiver is not nil.
pub mod Alive
use em_wall.Prelude.{
  ℕ, ◌+◌, Bool, true, false, not, ◌&&◌, ◌||◌, Option, none, some, List, [], ◌∷◌, Text, ◌==◌,
  text_eq, ltb, lookup, insert,
}

abbrev pub witness_window : ℕ
witness_window = 10000000000

abbrev pub proof_window : ℕ
proof_window = 60000000000

-- the map `last`
abbrev pub UplinkWitness : Type 0
UplinkWitness = List (Text × ℕ)

unfoldable pub saw : UplinkWitness → Text → ℕ → UplinkWitness
unfolding insert
saw w name now = insert name now w

-- t.After(cutoff), the cutoff a window before now
abbrev pub recent : ℕ → ℕ → ℕ → Bool
recent window now t = ltb now (t + window)

unfoldable pub other_alive : UplinkWitness → Text → ℕ → Bool
other_alive [] name now = false
other_alive ((n, t) ∷ w) name now =
    let rest = other_alive w name now in (not (n == name) && recent witness_window now t) || rest

abbrev pub proven : ℕ → Option ℕ → Bool
proven now none = false
proven now (some t) = recent proof_window now t

unfoldable pub any_proven : UplinkWitness → List Text → ℕ → Bool
unfolding lookup
any_proven w [] now = false
any_proven w (n ∷ names) now = let rest = any_proven w names now in proven now (lookup n w) || rest
