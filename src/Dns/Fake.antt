-- ===== src/Dns/Fake.antt =====
-- core/dnsproxy/dnsproxy.go: handleFakeIP.
use em_wall.Prelude.{
  ℕ, ◌/◌, ◌%◌, ◌^◌, false, not, Option, none, some, [], ◌∷◌, Text, codes, ◌==◌, nat_eq, text_eq,
  if◌then◌else◌,
}
use em_wall.Net.{v4}
use em_wall.Outbound.{parse_interface, proxy_prefix}
use em_wall.FakeIp.{Pool, allocate, release}
use em_wall.ProxyTable.{record_ip}
use em_wall.Dns.{
  Question, Query, type_a, rcode_success, second, Installer, Env, Config, Server, Line, Out,
  serv_fail, no_data, answer_with, a,
}

module _ {World : Type 0} (env : Env World) where
  -- The rest of handleFakeIP, once the address is pinned. Record is called where there is a resolver.
  unfoldable pub give_fake :
      Config
      → Server World
      → Query
      → Question
      → Text
      → Text
      → (Text → Line)
      → ℕ
      → ℕ
      → Server World × Out
  unfolding record_ip parse_interface
  give_fake cfg s req q name eff line rule_id v = (
    record s {
      table = elim env.has_proxy [
        | none ↦ s.table
        | some has ↦
            record_ip s.table (env.clock s.world) (some (env.show_ip (v4 v))) name
              (parse_interface proxy_prefix eff) cfg.route_ttl_min rule_id
      ];
    },
    answer_with cfg
        (record {
          id = req.id;
          rcode = rcode_success;
          answer = a (some (v4 v)) (cfg.route_ttl_min / second % 2 ^ 32) ∷ [];
          ns = [];
          extra = [];
          truncated = false;
        })
        (line (codes "route")),
  )

  -- handleFakeIP from the pin on: a route that fails gives the slot back
  unfoldable pub pin_fake :
      Option (Installer World)
      → Config
      → Server World
      → Pool
      → Query
      → Question
      → Text
      → Text
      → Text
      → (Text → Line)
      → ℕ
      → ℕ
      → Server World × Out
  unfolding release give_fake
  pin_fake none cfg s p req q name iface eff line rule_id v =
      give_fake cfg (record s { fake_ip = some p }) req q name eff line rule_id v
  pin_fake (some inst) cfg s p req q name iface eff line rule_id v =
      let (w, err) = inst s.world (env.show_ip (v4 v)) iface cfg.route_ttl_min rule_id in
      if err
      then (
        record s { fake_ip = some (release p name); world = w },
        answer_with cfg (serv_fail req) (line (codes "block-route-failed")),
      )
      else give_fake cfg (record s { fake_ip = some p; world = w }) req q name eff line rule_id v

  -- handleFakeIP
  unfoldable pub handle_fake_ip :
      Config
      → Server World
      → Pool
      → Query
      → Question
      → Text
      → Text
      → Text
      → (Text → Line)
      → ℕ
      → Server World × Out
  unfolding no_data allocate pin_fake
  handle_fake_ip cfg s pool req q name iface eff line rule_id =
      let (p, got) = allocate pool name (env.clock s.world) in
      if not (q.qtype == type_a)
      then (s, answer_with cfg (no_data cfg req name) (line (codes "route")))
      else elim got [
        | none ↦ (
          record s { fake_ip = some p },
          answer_with cfg (serv_fail req) (line (codes "block-fakeip-exhausted")),
        )
        | some v ↦ pin_fake env.install cfg s p req q name iface eff line rule_id v
      ]
