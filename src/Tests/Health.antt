-- ===== src/Tests/Health.antt =====
-- The two brakes, at one destination and at two.
use em_wall.Prelude.{
  ◌+◌, ◌≤◌, ◌<◌, ◌≡◌, ◌≢◌, refl, true, none, some, [], Text, codes, lookup, text_eq, arith,
}
use em_wall.TcpHealth.{Entry, admit, strike, condemn}
use em_wall.TcpHealth.Penalties.{Reachable, start, event, refused, recovers, step}
use em_wall.TcpHealth.Probes.{strike-condemn}
use em_wall.UdpHealth

abbrev web : Text
web = codes "web.example:443"

abbrev mail : Text
mail = codes "mail.example:993"

different : web ≢ mail
different e = cc

condemned : Reachable (step [] (refused web) 5) 5
condemned = event (refused web) 5 at_first start
  where
    at_first : 0 ≤ 5
    at_first = omega arith

a_minute : 5 + 60000000000 ≤ 60000000005
a_minute = omega arith

recovers_example : (admit (step [] (refused web) 5) web 60000000005).1 ≡ true
recovers_example = recovers (step [] (refused web) 5) 5 condemned web 60000000005 a_minute

five_six : 5 ≤ 6
five_six = omega arith

penalised : 2500000000 < 5 + 5000000000
penalised = omega arith

no_record : lookup {V = Entry} web [] ≡ none
unfolding lookup
no_record = refl

strike-condemn_example :
    ((strike (condemn [] web 5).0 web 2500000000).1 ≡ 0)
    × (lookup web (strike (condemn [] web 5).0 web 2500000000).0
        ≡ some (record {
          strikes = 0;
          level = 1;
          until = 2500000000 + 20000000000;
          last_probe = 0;
          seen = 2500000000;
        }))
strike-condemn_example = strike-condemn [] web 5 2500000000 tt no_record in_penalty penalised
  where
    in_penalty : 5 ≤ 2500000000
    in_penalty = omega arith

no_udp_record : lookup {V = UdpHealth.Entry} web [] ≡ none
unfolding lookup
no_udp_record = refl
