-- ===== src/Dns/Replied.antt =====
-- Every query with a question is answered and logged once.
use em_wall.Prelude.{
  ℕ, ◌≡◌, refl, Bool, true, false, Option, none, some, List, [], ◌∷◌, Text, ◌==◌, nat_eq, text_eq,
  length, if◌then◌else◌, Bool-cases, Option-cases, inl, inr,
}
use em_wall.Decision.{Outcome, allowed, blocked, routed, Decision, decide}
use em_wall.FakeIp.{Pool, allocate}
use em_wall.Dns.{
  Msg, Question, Query, Forwarded, failed, empty, replied, Installer, Env, Config, Server, Line,
  Out, Resolution, through, stopped, type_a, any_proxy, is_proxied, is_proxy_interface, route_line,
  translate_xray_interface, query_name, nx, no_data,
}
use em_wall.Outbound.{parse_interface, proxy_prefix}
use em_wall.Net.{v4}
use em_wall.Dns.Answers.{resolve_names, resolve_iface, install_routes_for, with_id, forward}
use em_wall.Dns.Fake.{give_fake, pin_fake, handle_fake_ip}
use em_wall.Dns.Handle.{
  deliver, passes_check, serve_through, serve_resolved, pass_on, serve, handle_question,
}

-- the outcomes that are logged
abbrev pub is_logged : Outcome → Bool
is_logged allowed = false
is_logged blocked = true
is_logged routed = true

module _ {World : Type 0} (env : Env World) (cfg : Config) (req : Query) where
  -- One message is written, with the query's ID, and `n` lines are logged.
  pub record Answered (n : ℕ) (result : Server World × Out) : Type 0 where
    pub written : (m : Msg) × (result.1.reply ≡ some m) × (m.id ≡ req.id)
    pub logged : length result.1.lines ≡ n

  abbrev pub once : ℕ
  once = if cfg.has_logs then 1 else 0

  abbrev Named : Option Msg → Type 0
  Named none = Unit
  Named (some m) = m.id ≡ req.id

  with_id-Named : (r : World × Forwarded) → Named (with_id req r).1
  unfolding with_id
  with_id-Named (v, failed) = tt
  with_id-Named (v, empty) = tt
  with_id-Named (v, replied m) = refl

  answered : (b : Bool) (line : Line) → length (if b then line ∷ [] else []) ≡ (if b then 1 else 0)
  answered true line = refl
  answered false line = refl

  deliver-Answered :
      (s : Server World) (name iface eff : Text) (proxied : Bool) (line : Text → Line) (rule_id : ℕ)
      (got : World × Option Msg)
      → Named got.1
      → Answered once (deliver env cfg s req name iface eff proxied line rule_id got)
  unfolding deliver nx
  deliver-Answered s name iface eff proxied line rule_id (w, none) h = record {
    written = (_, refl, refl);
    logged = answered cfg.has_logs _;
  }
  deliver-Answered s name iface eff proxied line rule_id (w, some resp) h =
      elim (Bool-cases (install_routes_for env cfg iface rule_id resp w).1) [
        | inl q ↦ rw q (record { written = (_, refl, refl); logged = answered cfg.has_logs _ })
        | inr q ↦ rw q (record { written = (resp, refl, h); logged = answered cfg.has_logs _ })
      ]

  pin_fake-Answered :
      (o : Option (Installer World)) (s : Server World) (p : Pool) (q : Question)
      (name iface eff : Text) (line : Text → Line) (rule_id v : ℕ)
      → Answered once (pin_fake env o cfg s p req q name iface eff line rule_id v)
  unfolding pin_fake give_fake
  pin_fake-Answered none s p q name iface eff line rule_id v = record {
    written = (_, refl, refl);
    logged = answered cfg.has_logs _;
  }
  pin_fake-Answered (some inst) s p q name iface eff line rule_id v =
      elim (Bool-cases (inst s.world (env.show_ip (v4 v)) iface cfg.route_ttl_min rule_id).1) [
        | inl e ↦ rw e (record { written = (_, refl, refl); logged = answered cfg.has_logs _ })
        | inr e ↦ rw e (record { written = (_, refl, refl); logged = answered cfg.has_logs _ })
      ]

  handle_fake_ip-Answered :
      (s : Server World) (pool : Pool) (q : Question) (name iface eff : Text) (line : Text → Line)
      (rule_id : ℕ)
      → Answered once (handle_fake_ip env cfg s pool req q name iface eff line rule_id)
  unfolding handle_fake_ip no_data
  handle_fake_ip-Answered s pool q name iface eff line rule_id =
      elim (Bool-cases (q.qtype == type_a)) [
        | inr e ↦ rw e (record { written = (_, refl, refl); logged = answered cfg.has_logs _ })
        | inl e ↦
            let (p, got) = allocate pool name (env.clock s.world) in
            elim (Option-cases got) [
              | inl n ↦
                  rw (e, n) (record { written = (_, refl, refl); logged = answered cfg.has_logs _ })
              | inr (v, n) ↦
                  rw (e, n) (pin_fake-Answered env.install s p q name iface eff line rule_id v)
            ]
      ]

  serve_through-Answered :
      (s : Server World) (q : Question) (name iface eff : Text) (proxied : Bool)
      (line : Text → Line) (rule_id : ℕ)
      → Answered once (serve_through env cfg s req q name iface eff proxied line rule_id)
  unfolding serve_through forward nx
  serve_through-Answered s q name iface eff proxied line rule_id =
      let asked = env.forward s.world req in
      let plain =
        deliver-Answered s name iface eff proxied line rule_id (with_id req asked)
          (with_id-Named asked) in
      elim (Bool-cases (passes_check env s.world iface)) [
        | inr e ↦ rw e (record { written = (_, refl, refl); logged = answered cfg.has_logs _ })
        | inl e ↦ elim (Option-cases s.fake_ip) [
          | inl n ↦ rw (e, n) plain
          | inr (pool, n) ↦
              let fake = handle_fake_ip-Answered s pool q name iface eff line rule_id in
              rw (e, n) (either proxied fake plain)
        ]
      ]
    where
      either :
          {x y : Server World × Out} (b : Bool)
          → Answered once x
          → Answered once y
          → Answered once (if b then x else y)
      either true u v = u
      either false u v = v

  -- A resolution that stops has written an answer to the query.
  abbrev Stops : Resolution → Type 0
  Stops (through iface) = Unit
  Stops (stopped m action) = m.id ≡ req.id

  resolve_names-Stops :
      (w : World) (name : Text) (has : World → Text → Bool) (names : List Text)
      → Stops (resolve_names env cfg w name req has names)
  unfolding resolve_names nx
  resolve_names-Stops w name has [] = refl
  resolve_names-Stops w name has (n ∷ names) = elim (Bool-cases (any_proxy (has w) (n ∷ names))) [
    | inl q ↦ rw q tt
    | inr q ↦ rw q refl
  ]

  resolve_iface-Stops : (w : World) (eff name : Text) → Stops (resolve_iface env cfg w eff name req)
  unfolding resolve_iface
  resolve_iface-Stops w eff name = elim (Bool-cases (is_proxy_interface eff)) [
    | inr p ↦ rw p tt
    | inl p ↦ elim (Option-cases env.has_proxy) [
      | inl n ↦ rw (p, n) refl
      | inr (has, n) ↦ elim (Bool-cases (cfg.proxy_tun == [])) [
        | inl e ↦ rw (p, n, e) refl
        | inr e ↦ rw (p, n, e) (resolve_names-Stops w name has (parse_interface proxy_prefix eff))
      ]
    ]
  ]

  serve_resolved-Answered :
      (s : Server World) (q : Question) (name stored eff : Text) (rule_id : ℕ) (client : Text)
      (r : Resolution)
      → Stops r
      → Answered once (serve_resolved env cfg s req q name stored eff rule_id client r)
  unfolding serve_resolved
  serve_resolved-Answered s q name stored eff rule_id client (stopped m action) h = record {
    written = (m, refl, h);
    logged = answered cfg.has_logs _;
  }
  serve_resolved-Answered s q name stored eff rule_id client (through iface) h =
      serve_through-Answered s q name iface eff (is_proxied stored)
        (route_line name stored iface rule_id client) rule_id

  pass_on-Answered :
      (s : Server World) (name : Text) (rule_id : ℕ) (got : World × Option Msg)
      → Named got.1
      → Answered 0 (pass_on env cfg s req name rule_id got)
  unfolding pass_on
  pass_on-Answered s name rule_id (w, none) h = record { written = (_, refl, refl); logged = refl }
  pass_on-Answered s name rule_id (w, some resp) h = record {
    written = (resp, refl, h);
    logged = refl;
  }

  serve-Answered :
      (s : Server World) (q : Question) (name : Text) (d : Decision) (o : Outcome) (client : Text)
      → Answered (if is_logged o then once else 0) (serve env cfg s req q name d o client)
  unfolding serve forward nx
  serve-Answered s q name d blocked client = record {
    written = (_, refl, refl);
    logged = answered cfg.has_logs _;
  }
  serve-Answered s q name d allowed client =
      let asked = env.forward s.world req in
      pass_on-Answered s name d.rule_id (with_id req asked) (with_id-Named asked)
  serve-Answered s q name d routed client =
      let eff = translate_xray_interface d.interface in
      serve_resolved-Answered s q name d.interface eff d.rule_id client
        (resolve_iface env cfg s.world eff name req) (resolve_iface-Stops s.world eff name)

  -- To a query with a question exactly one message is written, with the query's ID, whatever the
  -- decision and whatever fails on the way; and exactly one line is logged, where there is a log, if
  -- the name is blocked or routed, and none if it is allowed.
  pub handle-Answered :
      (s : Server World) (q : Question) (qs : List Question) (client : Text)
      → Answered
          (if is_logged (decide s.index (query_name q)).outcome then once else 0)
          (handle_question env cfg s req (q ∷ qs) client)
  unfolding handle_question
  handle-Answered s q qs client =
      let name = query_name q in
      let d = decide s.index name in serve-Answered s q name d d.outcome client
