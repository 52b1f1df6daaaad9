-- ===== src/UdpHealth.antt =====
-- daemon/udp_health.go: which destinations have a dead path for datagrams. As in the brake on
-- connections, entries are values of their map, times are nanoseconds with 0 the zero time, and an
-- operation is atomic and takes the time. The receiver is not nil.
pub mod Refusals
use em_wall.Prelude.{
  ℕ, zero, suc, ◌+◌, Bool, true, false, not, ◌&&◌, Option, none, some, List, [], Text, text_eq, ltb,
  leb, if◌then◌else◌, lookup, insert, prune,
}

abbrev pub strike_threshold : ℕ
strike_threshold = 2

abbrev pub entry_ttl : ℕ
entry_ttl = 7200000000000

-- udpPenaltyLadder[level]; an index past the last rung, which would panic, is never used
abbrev pub penalty : ℕ → ℕ
penalty zero = 300000000000
penalty (suc zero) = 900000000000
penalty (suc (suc n)) = 3600000000000

abbrev pub last_rung : ℕ
last_rung = 2

pub record Entry : Type 0 where
  pub strikes : ℕ
  pub level : ℕ
  pub until : ℕ
  pub seen : ℕ

abbrev pub new_entry : Entry
new_entry = record { strikes = 0; level = 0; until = 0; seen = 0 }

abbrev pub Health : Type 0
Health = List (Text × Entry)

unfoldable pub blocked : Health → Text → ℕ → Health × Bool
unfolding lookup insert
blocked h key now = elim (lookup key h) [
  | none ↦ (h, false)
  | some e ↦ (insert key (record e { seen = now }) h, ltb now e.until)
]

-- pruneLocked: not refused, and not touched for the entries' lifetime
abbrev pub stale : ℕ → Entry → Bool
stale now e = not (ltb now e.until) && ltb (e.seen + entry_ttl) now

unfoldable pub prune_locked : Health → ℕ → Health
unfolding prune
prune_locked h now = prune (stale now) h

unfoldable pub strike_entry : Entry → ℕ → Entry × ℕ
strike_entry e now =
    if ltb (e.strikes + 1) strike_threshold
    then (record e { strikes = e.strikes + 1; seen = now }, 0)
    else (
      record e {
        strikes = 0;
        level = if ltb e.level last_rung then e.level + 1 else e.level;
        until = now + penalty e.level;
        seen = now;
      },
      penalty e.level,
    )

abbrev pub or_new : Option Entry → Entry
or_new none = new_entry
or_new (some e) = e

unfoldable pub strike : Health → Text → ℕ → Health × ℕ
unfolding lookup insert prune_locked strike_entry
strike h key now =
    let (e, d) = strike_entry (or_new (lookup key (prune_locked h now))) now in
    (insert key e (prune_locked h now), d)

unfoldable pub reset : Health → Health
reset h = []

unfoldable pub success : Health → Text → ℕ → Health
unfolding lookup insert
success h key now = elim (lookup key h) [
  | none ↦ h
  | some e ↦ insert key (record e { strikes = 0; level = 0; until = 0; seen = now }) h
]
