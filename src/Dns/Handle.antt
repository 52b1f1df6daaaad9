-- ===== src/Dns/Handle.antt =====
-- core/dnsproxy/dnsproxy.go: handle, from the decision to the reply.
use em_wall.Prelude.{
  ℕ, Bool, true, not, ◌&&◌, Option, none, some, List, [], ◌∷◌, Text, codes, ◌==◌, nat_eq, text_eq,
  if◌then◌else◌,
}
use em_wall.Text.{has_prefix}
use em_wall.Decision.{Outcome, allowed, blocked, routed, Decision, decide}
use em_wall.ProxyTable.{Table}
use em_wall.Dns.{
  Msg, Question, Query, Env, Config, Server, Line, Out, silent, nx, serv_fail, answer_with,
  is_proxied, route_line, translate_xray_interface, Resolution, query_name, through, stopped,
}
use em_wall.Dns.Answers.{resolve_iface, install_routes_for, record_proxy_mapping, forward}
use em_wall.Dns.Fake.{handle_fake_ip}

module _ {World : Type 0} (env : Env World) where
  -- the end of the route case, on what the forwarder returned: pin the addresses of the answer, then deliver
  unfoldable pub deliver :
      Config
      → Server World
      → Query
      → Text
      → Text
      → Text
      → Bool
      → (Text → Line)
      → ℕ
      → World × Option Msg
      → Server World × Out
  unfolding install_routes_for record_proxy_mapping nx
  deliver cfg s req name iface eff proxied line rule_id (w, none) =
      (record s { world = w }, answer_with cfg (serv_fail req) (line (codes "forward-failed")))
  deliver cfg s req name iface eff proxied line rule_id (w, some resp) =
      let (v, err) = install_routes_for env cfg iface rule_id resp w in
      let table : Table = elim env.has_proxy [
        | none ↦ s.table
        | some has ↦
            if proxied
            then record_proxy_mapping env cfg name eff rule_id resp v s.table
            else s.table
      ] in
      if err
      then (
        record s { world = v },
        answer_with cfg (nx cfg req name) (line (codes "block-route-failed")),
      )
      else (record s { world = v; table = table }, answer_with cfg resp (line (codes "route")))

  -- whether the check of interfaces lets this one pass
  unfoldable pub passes_check : World → Text → Bool
  passes_check w iface = elim env.is_up [ none ↦ true | some up ↦ up w iface ]

  -- the route case behind resolveIface
  unfoldable pub serve_through :
      Config
      → Server World
      → Query
      → Question
      → Text
      → Text
      → Text
      → Bool
      → (Text → Line)
      → ℕ
      → Server World × Out
  unfolding passes_check handle_fake_ip deliver forward nx
  serve_through cfg s req q name iface eff proxied line rule_id =
      if not (passes_check s.world iface)
      then (s, answer_with cfg (nx cfg req name) (line (codes "block-iface-down")))
      else elim s.fake_ip [
        | none ↦ deliver cfg s req name iface eff proxied line rule_id (forward env s.world req)
        | some pool ↦
            if proxied
            then handle_fake_ip env cfg s pool req q name iface eff line rule_id
            else deliver cfg s req name iface eff proxied line rule_id (forward env s.world req)
      ]

  unfoldable pub serve_resolved :
      Config
      → Server World
      → Query
      → Question
      → Text
      → Text
      → Text
      → ℕ
      → Text
      → Resolution
      → Server World × Out
  unfolding serve_through route_line has_prefix
  serve_resolved cfg s req q name stored eff rule_id client (stopped m action) = (
    s,
    answer_with cfg m (record {
      name = name;
      action = action;
      iface = eff;
      rule_id = rule_id;
      client_ip = client;
    }),
  )
  serve_resolved cfg s req q name stored eff rule_id client (through iface) =
      serve_through cfg s req q name iface eff (is_proxied stored)
        (route_line name stored iface rule_id client) rule_id

  -- the allow case, on what the forwarder returned
  unfoldable pub pass_on :
      Config → Server World → Query → Text → ℕ → World × Option Msg → Server World × Out
  pass_on cfg s req name rule_id (w, none) =
      (record s { world = w }, record { reply = some (serv_fail req); lines = []; unmatched = [] })
  pass_on cfg s req name rule_id (w, some resp) = (
    record s { world = w },
    record {
      reply = some resp;
      lines = [];
      unmatched = if cfg.has_unmatched && rule_id == 0 then name ∷ [] else [];
    },
  )

  -- the switch of handle
  unfoldable pub serve :
      Config
      → Server World
      → Query
      → Question
      → Text
      → Decision
      → Outcome
      → Text
      → Server World × Out
  unfolding nx resolve_iface translate_xray_interface serve_resolved pass_on forward
  serve cfg s req q name d blocked client = (
    s,
    answer_with cfg (nx cfg req name) (record {
      name = name;
      action = codes "block";
      iface = [];
      rule_id = d.rule_id;
      client_ip = client;
    }),
  )
  serve cfg s req q name d routed client =
      let eff = translate_xray_interface d.interface in
      serve_resolved cfg s req q name d.interface eff d.rule_id client
        (resolve_iface env cfg s.world eff name req)
  serve cfg s req q name d allowed client =
      pass_on cfg s req name d.rule_id (forward env s.world req)

  -- handle; `client` is what remoteIP gives
  unfoldable pub handle_question :
      Config → Server World → Query → List Question → Text → Server World × Out
  unfolding query_name decide serve
  handle_question cfg s req [] client = (s, silent)
  handle_question cfg s req (q ∷ qs) client =
      let name = query_name q in
      let d = decide s.index name in serve cfg s req q name d d.outcome client

  unfoldable pub handle : Config → Server World → Query → Text → Server World × Out
  unfolding handle_question
  handle cfg s req client = handle_question cfg s req req.questions client
