-- ===== src/DialGate.antt =====
-- daemon/dialgate.go: the ceiling on the dials in flight. The channel's length is a number; an
-- acquisition that gets a slot has a number of its own, which its release function is known by, with
-- the variable `released` that it closes over. When the slot is ready and the context or the timer is
-- too, Go's select takes either: whether it takes the slot is an argument.
pub mod Slots
use em_wall.Prelude.{
  ℕ, zero, suc, ◌+◌, ◌-◌, Bool, true, false, not, ◌&&◌, Option, none, some, ◌==◌, nat_eq, ltb,
  if◌then◌else◌,
}

abbrev pub proxy_max_concurrent_dials : ℕ
proxy_max_concurrent_dials = 256

pub record Gate : Type 0 where
  pub size : ℕ
  pub slots : ℕ
  pub released : ℕ → Bool
  pub fresh : ℕ

-- newDialGate
abbrev pub new_dial_gate : ℕ → Gate
new_dial_gate n = record { size = n; slots = 0; released = λ i. false; fresh = 0 }

-- acquire: the number of the release function that returns the slot, or none
unfoldable pub acquire : Gate → Bool → Gate × Option ℕ
acquire g picks =
    if ltb g.slots g.size && picks
    then (record g { slots = g.slots + 1; fresh = g.fresh + 1 }, some g.fresh)
    else (g, none)

-- the release function; that of a failed acquire does nothing
unfoldable pub release : Gate → Option ℕ → Gate
release g none = g
release g (some i) =
    if g.released i
    then g
    else record g { slots = g.slots - 1; released = λ j. if j == i then true else g.released j }
