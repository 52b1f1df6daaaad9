-- ===== src/Dns/Upstream.antt =====
-- core/dnsproxy/dnsproxy.go, MultiUpstream: the best reply of several servers. What `Exchange` of the
-- UDP and of the TCP client return is a parameter, over the state of the world.
pub mod Ranked
use em_wall.Prelude.{
  ℕ, Bool, true, false, ◌||◌, Option, none, some, List, [], ◌∷◌, Text, ◌==◌, nat_eq, leb, ltb,
  if◌then◌else◌, length,
}
use em_wall.Dns.{Msg, Forwarded, failed, empty, replied, rcode_success, rcode_name_error}

-- rankNone to rankPositive
abbrev pub rank_none : ℕ
rank_none = 0

abbrev pub rank_soft_fail : ℕ
rank_soft_fail = 1

abbrev pub rank_nxdomain : ℕ
rank_nxdomain = 2

abbrev pub rank_no_data : ℕ
rank_no_data = 3

abbrev pub rank_positive : ℕ
rank_positive = 4

-- rankResponse
unfoldable pub rank_response : Msg → ℕ
rank_response resp =
    if resp.rcode == rcode_success
    then (if ltb 0 (length resp.answer) then rank_positive else rank_no_data)
    else if resp.rcode == rcode_name_error
    then rank_nxdomain
    else rank_soft_fail

-- the best reply so far, with its rank
pub record Best : Type 0 where
  pub best : Option Msg
  pub rank : ℕ

abbrev pub no_best : Best
no_best = record { best = none; rank = rank_none }

abbrev pub outcome : Best → Forwarded
outcome b = elim b.best [ none ↦ failed | some m ↦ replied m ]

module _ {World : Type 0} where
  -- one round of attempt's loop, before the rounds that follow: the reply of a server is taken where
  -- it is better, and a positive one ends the loop
  unfoldable pub consider :
      (World → Best → World × Best × Bool) → Best → World × Forwarded → World × Best × Bool
  unfolding rank_response
  consider rest b (v, failed) = rest v b
  consider rest b (v, empty) = rest v b
  consider rest b (v, replied m) =
      let r = rank_response m in
      let better : Best = record { best = some m; rank = r } in
      if ltb b.rank r
      then (if r == rank_positive then (v, better, true) else rest v better)
      else rest v b

module _ {World : Type 0} (udp tcp : World → Text → World × Forwarded) where
  -- exchange: a truncated reply is asked for again over TCP
  unfoldable pub exchange : World → Text → World × Forwarded
  exchange w server = over_tcp (udp w server)
    where
      over_tcp : World × Forwarded → World × Forwarded
      over_tcp (v, failed) = (v, failed)
      over_tcp (v, empty) = (v, empty)
      over_tcp (v, replied m) =
          let (u, r) = tcp v server in if m.truncated then (u, r) else (v, replied m)

  -- attempt, over the servers that are left; whether it found a positive reply
  unfoldable pub attempt : List Text → World → Best → World × Best × Bool
  unfolding exchange consider
  attempt [] w b = (w, b, false)
  attempt (server ∷ servers) w b = consider (attempt servers) b (exchange w server)

  -- (*MultiUpstream).Forward: a second pass where the first found nothing better than a soft failure
  unfoldable pub forward_best : List Text → World → World × Forwarded
  unfolding attempt
  forward_best servers w =
      let (v, b, positive) = attempt servers w no_best in
      let (u, c, again) = attempt servers v b in
      if positive
      then (v, outcome b)
      else if leb b.rank rank_soft_fail
      then (u, outcome c)
      else (v, outcome b)
