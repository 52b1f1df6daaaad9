-- ===== src/Dns/Closed.antt =====
-- The route case of handle fails closed: the addresses in the answer section that it delivers are
-- pinned. The additional section is not looked at by the code.
use em_wall.Prelude.{
  ℕ, ◌≡◌, ◌≢◌, ◌∙◌, refl, sym, ap, subst, Bool, true, false, Option, none, some, List, [], ◌∷◌,
  Text, ◌==◌, nat_eq, text_eq, text_beq_iff, All, arith, Bool-cases, Option-cases, inl, inr,
}
use em_wall.Net.{v4}
use em_wall.Text.{has_prefix}
use em_wall.Outbound.{parse_interface, proxy_prefix}
use em_wall.Decision.{decide, routed}
use em_wall.FakeIp.{Pool, allocate}
use em_wall.Dns.{
  any_proxy, route_line, Msg, Question, Query, Installer, Env, Config, Server, Line, Out,
  Resolution, through, stopped, type_a, is_proxy_interface, is_xray_interface,
  translate_xray_interface, query_name, nx, is_proxied,
}
use em_wall.Dns.Answers.{resolve_names, resolve_iface, install_answers, install_routes_for, forward}
use em_wall.Dns.Fake.{give_fake, pin_fake, handle_fake_ip}
use em_wall.Dns.Handle.{
  deliver, passes_check, serve_through, serve_resolved, serve, handle_question,
}
use em_wall.Dns.Pinned.{Pins, answers, egress, Covered, install_answers-Covered}

module _ {World : Type 0} (env : Env World) (inst : Installer World)
    (Pinned : World → Text → Text → Type 0) (pins : Pins inst Pinned)
    (present : env.install ≡ some inst) (cfg : Config) (req : Query) where
  -- Every address of an A or AAAA record in the reply's answer section is pinned to the interface.
  abbrev pub AllCovered : Text → Server World × Out → Type 0
  AllCovered iface (s, out) = All (Covered env Pinned s.world iface) (answers out)

  install_routes_for-Covered :
      (iface : Text) (rule_id : ℕ) (resp : Msg) (w : World)
      → iface ≢ []
      → (install_routes_for env cfg iface rule_id resp w).1 ≡ false
      → All
          (Covered env Pinned (install_routes_for env cfg iface rule_id resp w).0 iface)
          resp.answer
  unfolding install_routes_for
  install_routes_for-Covered iface rule_id resp w named h =
      let same : install_routes_for env cfg iface rule_id resp w
          ≡ install_answers env inst cfg iface rule_id resp.answer w =
        rw present (ground (arith, text_beq_iff iface [])) in
      subst (λ r. All (Covered env Pinned r.0 iface) resp.answer) (sym same)
        (install_answers-Covered env inst Pinned pins cfg iface rule_id resp.answer w
          (ap (λ r. r.1) (sym same) ∙ h))

  deliver-AllCovered :
      (s : Server World) (name iface eff : Text) (proxied : Bool) (line : Text → Line) (rule_id : ℕ)
      (got : World × Option Msg)
      → iface ≢ []
      → AllCovered iface (deliver env cfg s req name iface eff proxied line rule_id got)
  unfolding deliver
  deliver-AllCovered s name iface eff proxied line rule_id (w, none) named = tt
  deliver-AllCovered s name iface eff proxied line rule_id (w, some resp) named =
      elim (Bool-cases (install_routes_for env cfg iface rule_id resp w).1) [
        | inl q ↦ rw q tt
        | inr q ↦ rw q (install_routes_for-Covered iface rule_id resp w named q)
      ]

  pin_fake-AllCovered :
      (s : Server World) (p : Pool) (q : Question) (name iface eff : Text) (line : Text → Line)
      (rule_id v : ℕ)
      → AllCovered iface (pin_fake env (some inst) cfg s p req q name iface eff line rule_id v)
  unfolding pin_fake give_fake
  pin_fake-AllCovered s p q name iface eff line rule_id v =
      let host = env.show_ip (v4 v) in
      let one = inst s.world host iface cfg.route_ttl_min rule_id in
      elim (Bool-cases one.1) [
        | inl e ↦ rw e tt
        | inr e ↦ rw e (pins.added s.world host iface cfg.route_ttl_min rule_id e, tt)
      ]

  handle_fake_ip-AllCovered :
      (s : Server World) (pool : Pool) (q : Question) (name iface eff : Text) (line : Text → Line)
      (rule_id : ℕ)
      → AllCovered iface (handle_fake_ip env cfg s pool req q name iface eff line rule_id)
  unfolding handle_fake_ip
  handle_fake_ip-AllCovered s pool q name iface eff line rule_id =
      elim (Bool-cases (q.qtype == type_a)) [
        | inr e ↦ rw e tt
        | inl e ↦
            let (p, got) = allocate pool name (env.clock s.world) in
            elim (Option-cases got) [
              | inl n ↦ rw (e, n) tt
              | inr (v, n) ↦
                  rw (e, n, present) (pin_fake-AllCovered s p q name iface eff line rule_id v)
            ]
      ]

  serve_through-AllCovered :
      (s : Server World) (q : Question) (name iface eff : Text) (proxied : Bool)
      (line : Text → Line) (rule_id : ℕ)
      → iface ≢ []
      → AllCovered iface (serve_through env cfg s req q name iface eff proxied line rule_id)
  unfolding serve_through
  serve_through-AllCovered s q name iface eff true line rule_id named =
      let plain =
        deliver-AllCovered s name iface eff true line rule_id (forward env s.world req) named in
      elim (Bool-cases (passes_check env s.world iface)) [
        | inr e ↦ rw e tt
        | inl e ↦ elim (Option-cases s.fake_ip) [
          | inl n ↦ rw (e, n) plain
          | inr (pool, n) ↦
              rw (e, n) (handle_fake_ip-AllCovered s pool q name iface eff line rule_id)
        ]
      ]
  serve_through-AllCovered s q name iface eff false line rule_id named =
      let plain =
        deliver-AllCovered s name iface eff false line rule_id (forward env s.world req) named in
      elim (Bool-cases (passes_check env s.world iface)) [
        | inr e ↦ rw e tt
        | inl e ↦ elim (Option-cases s.fake_ip) [
          | inl n ↦ rw (e, n) plain
          | inr (pool, n) ↦ rw (e, n) plain
        ]
      ]

  -- An interface that is not empty and is the rule's, or an empty answer section.
  abbrev Resolves : Text → Resolution → Type 0
  Resolves stored (through iface) = (iface ≡ egress cfg stored) × (iface ≢ [])
  Resolves stored (stopped m action) = m.answer ≡ []

  resolve_names-Resolves :
      (w : World) (stored name : Text) (has : World → Text → Bool) (names : List Text)
      → egress cfg stored ≡ cfg.proxy_tun
      → cfg.proxy_tun ≢ []
      → Resolves stored (resolve_names env cfg w name req has names)
  unfolding resolve_names nx
  resolve_names-Resolves w stored name has [] e named = refl
  resolve_names-Resolves w stored name has (n ∷ names) e named =
      elim (Bool-cases (any_proxy (has w) (n ∷ names))) [
        | inl q ↦ rw q (sym e, named)
        | inr q ↦ rw q refl
      ]

  resolve_proxied :
      (w : World) (stored eff name : Text)
      → is_proxy_interface eff ≡ true
      → egress cfg stored ≡ cfg.proxy_tun
      → Resolves stored (resolve_iface env cfg w eff name req)
  unfolding resolve_iface
  resolve_proxied w stored eff name h e = elim (Option-cases env.has_proxy) [
    | inl n ↦ rw (h, n) refl
    | inr (has, n) ↦ elim (Bool-cases (cfg.proxy_tun == [])) [
      | inl q ↦ rw (h, n, q) refl
      | inr q ↦
          rw (h, n, q)
            (resolve_names-Resolves w stored name has (parse_interface proxy_prefix eff) e
              (ground (arith, text_beq_iff cfg.proxy_tun [])))
    ]
  ]

  resolve_iface-Resolves :
      (w : World) (stored name : Text)
      → stored ≢ []
      → Resolves stored (resolve_iface env cfg w (translate_xray_interface stored) name req)
  unfolding translate_xray_interface egress
  resolve_iface-Resolves w stored name named = elim (Bool-cases (is_xray_interface stored)) [
    | inl x ↦
        resolve_proxied w stored (translate_xray_interface stored) name
          (rw x (unfold has_prefix in refl)) (ground arith)
    | inr x ↦
        let same : translate_xray_interface stored ≡ stored = rw x refl in
        elim (Bool-cases (is_proxy_interface stored)) [
          | inl p ↦
              subst (λ eff. Resolves stored (resolve_iface env cfg w eff name req)) (sym same)
                (resolve_proxied w stored stored name p (ground arith))
          | inr p ↦
              subst (λ eff. Resolves stored (resolve_iface env cfg w eff name req)) (sym same)
                (unfold resolve_iface in rw p (rw (p, x) refl, named))
        ]
  ]

  serve_resolved-AllCovered :
      (s : Server World) (q : Question) (name stored eff : Text) (rule_id : ℕ) (client : Text)
      (r : Resolution)
      → Resolves stored r
      → AllCovered
          (egress cfg stored)
          (serve_resolved env cfg s req q name stored eff rule_id client r)
  unfolding serve_resolved
  serve_resolved-AllCovered s q name stored eff rule_id client (stopped m action) h =
      subst (All (Covered env Pinned s.world (egress cfg stored))) (sym h) tt
  serve_resolved-AllCovered s q name stored eff rule_id client (through iface) h =
      subst
        (λ i.
          AllCovered i
            (serve_resolved env cfg s req q name stored eff rule_id client (through iface)))
        h.0
        (serve_through-AllCovered s q name iface eff (is_proxied stored)
          (route_line name stored iface rule_id client) rule_id h.1)

  -- the reply fails closed
  unfoldable pub Closed : Text → Server World × Out → Type 0
  Closed iface result = AllCovered iface result

  -- A name is routed by a rule with an interface, and the manager of routes pins what it installs.
  -- Every address of an A or AAAA record in the answer section of the reply to a query for it, real or
  -- synthetic, is then pinned to the interface of the rule, which is the tunnel for proxies and xray,
  -- whatever fails. Of records of other types and of the additional section it says nothing.
  pub handle-Closed :
      (s : Server World) (q : Question) (qs : List Question) (client : Text)
      → (decide s.index (query_name q)).outcome ≡ routed
      → (decide s.index (query_name q)).interface ≢ []
      → Closed
          (egress cfg (decide s.index (query_name q)).interface)
          (handle_question env cfg s req (q ∷ qs) client)
  unfolding Closed handle_question serve
  handle-Closed s q qs client route named =
      let name = query_name q in
      let d = decide s.index name in
      let eff = translate_xray_interface d.interface in
      subst (λ o. AllCovered (egress cfg d.interface) (serve env cfg s req q name d o client))
        (sym route)
        (serve_resolved-AllCovered s q name d.interface eff d.rule_id client
          (resolve_iface env cfg s.world eff name req)
          (resolve_iface-Resolves s.world d.interface name named))
