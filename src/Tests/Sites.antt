-- ===== src/Tests/Sites.antt =====
-- Bindings and avoidance at one site and two members.
use em_wall.Prelude.{◌+◌, ◌≤◌, ◌≢◌, List, [], ◌∷◌, Text, codes, text_eq, arith}
use em_wall.Sticky.{Entry, Bindings, sticky_ttl}
use em_wall.Sticky.Moves.{Steady}

abbrev web : Text
web = codes "web.example"

abbrev first : Text
first = codes "xray-a"

abbrev second : Text
second = codes "xray-b"

web_named : web ≢ []
web_named e = cc

first_named : first ≢ []
first_named e = cc

ten_later : 10 ≤ 20
ten_later = omega arith

a_burst : Steady 20 (30 ∷ 40 ∷ []) 15000000020
a_burst = (
  (omega arith),
  ((omega arith), ((omega arith), ((omega arith), ((omega arith), (omega arith))))),
)

in_life : 15000000020 ≤ 10 + sticky_ttl
in_life = omega arith

abbrev missed : Entry
missed = record { name = first; at = 0; misses = 3; miss_first = 20; miss_last = 30 }

abbrev bound : Bindings
bound = record { entries = (web, missed) ∷ []; last_sweep = 0 }

abbrev name_only : Text → List Text
name_only n = n ∷ []
