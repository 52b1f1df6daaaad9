-- ===== src/TcpHealth.antt =====
-- daemon/tcp_health.go: the brake on connection storms to a dead destination. Entries are reached
-- through their map alone, so they are values of it. Times and durations are nanoseconds, 0 the zero
-- time; an operation is atomic, as the mutex makes it, and takes the time. The receiver is not nil.
pub mod Penalties
pub mod Probes
use em_wall.Prelude.{
  ℕ, zero, suc, ◌+◌, Bool, true, false, not, ◌&&◌, Option, none, some, List, [], Text, text_eq, ltb,
  leb, if◌then◌else◌, lookup, insert, prune,
}

abbrev pub strike_threshold : ℕ
strike_threshold = 5

abbrev pub probe_interval : ℕ
probe_interval = 1000000000

abbrev pub entry_ttl : ℕ
entry_ttl = 7200000000000

-- tcpPenaltyLadder[level]; an index past the last rung, which would panic, is never used
abbrev pub penalty : ℕ → ℕ
penalty zero = 5000000000
penalty (suc zero) = 20000000000
penalty (suc (suc n)) = 60000000000

abbrev pub last_rung : ℕ
last_rung = 2

pub record Entry : Type 0 where
  pub strikes : ℕ
  pub level : ℕ
  pub until : ℕ
  pub last_probe : ℕ
  pub seen : ℕ

abbrev pub new_entry : Entry
new_entry = record { strikes = 0; level = 0; until = 0; last_probe = 0; seen = 0 }

abbrev pub Health : Type 0
Health = List (Text × Entry)

-- admit, for a destination that has an entry
unfoldable pub admit_entry : Entry → ℕ → Entry × Bool
admit_entry e now =
    if not (ltb now e.until)
    then (record e { seen = now }, true)
    else if leb (e.last_probe + probe_interval) now
    then (record e { seen = now; last_probe = now }, true)
    else (record e { seen = now }, false)

unfoldable pub admit : Health → Text → ℕ → Health × Bool
unfolding lookup insert admit_entry
admit h key now = elim (lookup key h) [
  | none ↦ (h, true)
  | some e ↦ let (e', yes_) = admit_entry e now in (insert key e' h, yes_)
]

-- pruneLocked: not penalised, and not touched for the entries' lifetime
abbrev pub stale : ℕ → Entry → Bool
stale now e = not (ltb now e.until) && ltb (e.seen + entry_ttl) now

unfoldable pub prune_locked : Health → ℕ → Health
unfolding prune
prune_locked h now = prune (stale now) h

-- the next penalty, applied from now
unfoldable pub penalise : Entry → ℕ → Entry × ℕ
penalise e now = (
  record e {
    strikes = 0;
    level = if ltb e.level last_rung then e.level + 1 else e.level;
    until = now + penalty e.level;
    seen = now;
  },
  penalty e.level,
)

unfoldable pub strike_entry : Entry → ℕ → Entry × ℕ
unfolding penalise
strike_entry e now =
    if ltb now e.until
    then (record e { until = now + penalty e.level; seen = now }, 0)
    else if ltb (e.strikes + 1) strike_threshold
    then (record e { strikes = e.strikes + 1; seen = now }, 0)
    else penalise e now

abbrev pub or_new : Option Entry → Entry
or_new none = new_entry
or_new (some e) = e

unfoldable pub strike : Health → Text → ℕ → Health × ℕ
unfolding lookup insert prune_locked strike_entry
strike h key now =
    let (e, d) = strike_entry (or_new (lookup key (prune_locked h now))) now in
    (insert key e (prune_locked h now), d)

unfoldable pub condemn : Health → Text → ℕ → Health × ℕ
unfolding lookup insert prune_locked penalise
condemn h key now =
    let (e, d) = penalise (or_new (lookup key (prune_locked h now))) now in
    (insert key e (prune_locked h now), d)

unfoldable pub reset : Health → Health
reset h = []

unfoldable pub success : Health → Text → ℕ → Health
unfolding lookup insert
success h key now = elim (lookup key h) [
  | none ↦ h
  | some e ↦ insert key (record e { strikes = 0; level = 0; until = 0; seen = now }) h
]
