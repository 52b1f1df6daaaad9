-- ===== src/Sticky.antt =====
-- daemon/proxysticky.go: which upstream a destination is using. Times are nanoseconds, given to an
-- operation in place of the clock; an operation is atomic, as the mutex makes it. The receiver is
-- not nil.
pub mod Bound
pub mod Moves
use em_wall.Prelude.{
  ℕ, zero, suc, ◌+◌, Bool, true, false, not, ◌&&◌, ◌||◌, Option, none, some, List, [], ◌==◌, nat_eq,
  Text, text_eq, ltb, leb, if◌then◌else◌, lookup, insert, delete, prune,
}

abbrev pub sticky_ttl : ℕ
sticky_ttl = 600000000000

abbrev pub sweep_interval : ℕ
sweep_interval = 60000000000

abbrev pub move_after : ℕ
move_after = 15000000000

abbrev pub move_misses : ℕ
move_misses = 2

abbrev pub miss_reset : ℕ
miss_reset = 60000000000

pub record Entry : Type 0 where
  pub name : Text
  pub at : ℕ
  pub misses : ℕ
  pub miss_first : ℕ
  pub miss_last : ℕ

pub record Bindings : Type 0 where
  pub entries : List (Text × Entry)
  pub last_sweep : ℕ

abbrev pub new_sticky_bindings : Bindings
new_sticky_bindings = record { entries = []; last_sweep = 0 }

-- now.Sub(e.at) > stickyTTL
abbrev pub gone : ℕ → Entry → Bool
gone now e = ltb (e.at + sticky_ttl) now

unfoldable pub get : Bindings → Text → ℕ → Text
unfolding lookup
get s key now =
    if key == []
    then []
    else elim (lookup key s.entries) [ none ↦ [] | some e ↦ if gone now e then [] else e.name ]

-- the sweep, piggybacked on the write
unfoldable pub sweep : Bindings → ℕ → Bindings
unfolding prune
sweep s now =
    if leb (s.last_sweep + sweep_interval) now
    then record s { entries = prune (gone now) s.entries; last_sweep = now }
    else s

unfoldable pub set : Bindings → Text → Text → ℕ → Bindings
unfolding insert sweep
set s key name now =
    if key == [] || name == []
    then s
    else let e : Entry = record {
      name = name;
      at = now;
      misses = 0;
      miss_first = 0;
      miss_last = 0;
    } in
      sweep (record s { entries = insert key e s.entries }) now

-- the misses of an entry, a run that went quiet forgotten
abbrev pub fresh_misses : Entry → ℕ → ℕ
fresh_misses e now = if ltb 0 e.misses && ltb (e.miss_last + miss_reset) now then 0 else e.misses

-- one more miss of an entry
unfoldable pub miss_entry : Entry → ℕ → Entry
miss_entry e now = record e {
  misses = fresh_misses e now + 1;
  miss_first = if fresh_misses e now == 0 then now else e.miss_first;
  miss_last = now;
}

abbrev pub should_move : Entry → ℕ → Bool
should_move e now = leb move_misses e.misses && leb (e.miss_first + move_after) now

unfoldable pub miss : Bindings → Text → Text → ℕ → Bindings × Bool
unfolding lookup insert miss_entry
miss s key name now = if key == [] then (s, false) else elim (lookup key s.entries) [
  | none ↦ (s, false)
  | some e ↦ if not (e.name == name) || gone now e then (s, false) else (
    record s { entries = insert key (miss_entry e now) s.entries },
    should_move (miss_entry e now) now,
  )
]

unfoldable pub drop : Bindings → Text → Text → Bindings
unfolding lookup delete
drop s key name = if key == [] then s else elim (lookup key s.entries) [
  | none ↦ s
  | some e ↦ if e.name == name then record s { entries = delete key s.entries } else s
]
