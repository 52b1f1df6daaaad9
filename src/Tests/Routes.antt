-- ===== src/Tests/Routes.antt =====
-- Members of a slot, host routes, and references to outbounds.
use em_wall.Prelude.{
  ℕ, ◌+◌, ◌≤◌, ◌≡◌, ◌≢◌, ◌==◌, refl, Bool, true, false, is_listed, Option, none, some, List, [],
  ◌∷◌, Text, codes, lookup, IsMap, if◌then◌else◌, text_eq, nat_eq, text_beq, arith,
}
use em_wall.NodePark.{NodeStatus, Slot, Nodes, parked, park_max}
use em_wall.NodePark.Terms.{Event, polled, step, Reachable, start, event, park_ends}
use em_wall.Routing.{
  Entry, Routes, Reply, install, sweep_expired, remove_by_rule, flush, add_args, delete_args,
  looks_like_already_exists,
}
use em_wall.Routing.Table.{unless_test, after_sweep, routes_removed}
use em_wall.Routing.Replace.{replace_failed}
use em_wall.Outbound.{DialerRef, xray, proxy, parse_dialer, format_dialer, name_bytes}
use em_wall.Outbound.RoundTrip.{IsCanonical, parse_dialer-format_dialer}

abbrev first : Text
first = codes "xray-a"

abbrev second : Text
second = codes "xray-b"

-- the first member is alive, every other one dead
abbrev health : ℕ → Text → Option NodeStatus
health i k =
    if k == first
    then some (record { alive = true; all = 3; failed = 0 })
    else some (record { alive = false; all = 3; failed = 3 })

abbrev pair : Slot
pair = record { index = 0; members = first ∷ second ∷ []; never_parks = false }

abbrev poll : Event
poll = polled health (pair ∷ [])

abbrev polled_once : Nodes
polled_once = step [] poll 5

abbrev polled_twice : Nodes
polled_twice = step polled_once poll 900000000005

two_polls : Reachable polled_twice 900000000005
two_polls = event poll 900000000005 later (event poll 5 at_first start)
  where
    at_first : 0 ≤ 5
    at_first = omega arith

    later : 5 ≤ 900000000005
    later = omega arith

park_ends_example : parked polled_twice 4500000000005 ≡ []
park_ends_example = park_ends polled_twice 900000000005 two_polls 4500000000005 an_hour
  where
    an_hour : 900000000005 + park_max ≤ 4500000000005
    an_hour = omega arith

-- a system that counts its calls and refuses every one
abbrev refuse : ℕ → List Text → ℕ × Reply
refuse n args = (n + 1, record { failed = true; out = codes "no" })

abbrev accept : ℕ → List Text → ℕ × Reply
accept n args = (n + 1, record { failed = false; out = [] })

abbrev host : Text
host = codes "192.0.2.7"

abbrev tunnel : Text
tunnel = codes "utun4"

abbrev old_route : Entry
old_route = record {
  host = host;
  iface = codes "en0";
  expires_at = 50;
  rule_id = 1;
  is_net = false;
  is_v4 = true;
  is_static = false;
}

abbrev one_route : Routes
one_route = (host, old_route) ∷ []

abbrev office : Text
office = codes "198.51.100.0/24"

abbrev static_route : Entry
static_route = record {
  host = office;
  iface = codes "en0";
  expires_at = 0;
  rule_id = 2;
  is_net = true;
  is_v4 = true;
  is_static = true;
}

abbrev two_routes : Routes
two_routes = (host, old_route) ∷ (office, static_route) ∷ []

two_routes-IsMap : IsMap two_routes
unfolding lookup text_beq
two_routes-IsMap = (refl, (refl, tt))

-- the static route is long past the time it says
routes_removed_example :
    (lookup office (sweep_expired refuse two_routes 0 60).0
      ≡ after_sweep 60 (lookup office two_routes))
    × ((lookup office (remove_by_rule refuse two_routes 0 1).0
          ≡ unless_test (λ e. e.rule_id == 1) (lookup office two_routes))
        × (lookup office (flush refuse two_routes 0).0 ≡ none))
routes_removed_example = routes_removed refuse two_routes 0 60 1 office two_routes-IsMap

found : lookup host one_route ≡ some old_route
unfolding lookup text_beq
found = refl

-- a system that says whether it has the route, takes it out and adds none
abbrev one_way : Bool → List Text → Bool × Reply
one_way there args =
    if is_listed (codes "add") args
    then (there, record { failed = true; out = codes "Network is down" })
    else (false, record { failed = false; out = [] })

abbrev there : Bool → Bool
there b = b

one_way_other : codes "en0" ≢ tunnel
one_way_other e = cc

one_way_named : tunnel ≢ []
one_way_named e = cc

one_way_deletes :
    (v : Bool)
    → (one_way v (delete_args true false host)).1.failed ≡ false
    → there (one_way v (delete_args true false host)).0 ≡ false
unfolding text_beq
one_way_deletes v h = refl

one_way_refused : (v : Bool) → (one_way v (add_args true false host tunnel)).1.failed ≡ true
unfolding text_beq
one_way_refused v = refl

one_way_not_there :
    (v : Bool)
    → looks_like_already_exists (one_way v (add_args true false host tunnel)).1.out ≡ false
unfolding text_beq looks_like_already_exists
one_way_not_there v = refl

one_way_kept : (v : Bool) → there (one_way v (add_args true false host tunnel)).0 ≡ there v
unfolding text_beq
one_way_kept v = refl

one_way_deleted : (one_way true (delete_args true false host)).1.failed ≡ false
unfolding text_beq
one_way_deleted = refl

replace_failed_example :
    ((install one_way one_route true (λ n. false) host (some true) tunnel 60 30 2).2 ≡ true)
    × ((install one_way one_route true (λ n. false) host (some true) tunnel 60 30 2).0 ≡ one_route)
    × (there (install one_way one_route true (λ n. false) host (some true) tunnel 60 30 2).1
        ≡ false)
replace_failed_example =
    replace_failed one_way there one_route true (λ n. false) host true tunnel 60 30 2 old_route
      found one_way_other one_way_named one_way_deletes one_way_refused one_way_not_there
      one_way_kept one_way_deleted

abbrev work : DialerRef
work = record { kind = xray; name = codes "work" }

abbrev home : DialerRef
home = record { kind = proxy; name = codes "home_2" }

work-bytes : name_bytes (codes "work") ≡ true
unfolding name_bytes
work-bytes = refl

home-bytes : name_bytes (codes "home_2") ≡ true
unfolding name_bytes
home-bytes = refl

work-IsCanonical : IsCanonical work
work-IsCanonical = record { bytes = work-bytes; some_bytes = λ e. cc; length_max = omega arith }

home-IsCanonical : IsCanonical home
home-IsCanonical = record { bytes = home-bytes; some_bytes = λ e. cc; length_max = omega arith }

parse_dialer-format_dialer_example :
    parse_dialer (format_dialer (work ∷ home ∷ [])) ≡ some (work ∷ home ∷ [])
parse_dialer-format_dialer_example =
    parse_dialer-format_dialer (work ∷ home ∷ []) (work-IsCanonical, (home-IsCanonical, tt))
