-- ===== src/Dns/Answers.antt =====
-- core/dnsproxy/dnsproxy.go: resolveIface, forward, installRoutesFor and recordProxyMapping.
use em_wall.Prelude.{
  ℕ, ◌*◌, Bool, true, false, not, Option, none, some, List, [], ◌∷◌, Text, codes, ◌==◌, nat_eq,
  text_eq, if◌then◌else◌,
}
use em_wall.Text.{has_prefix}
use em_wall.Net.{Ip}
use em_wall.Outbound.{parse_interface, proxy_prefix}
use em_wall.ProxyTable.{Table, record_ip, longer}
use em_wall.Dns.{
  Rr, Msg, Query, second, Forwarded, Installer, Env, Config, nx, serv_fail, is_proxy_interface,
  address, Resolution, any_proxy, failed, empty, replied, through, stopped,
}

-- what forward makes of the forwarder's answer
unfoldable pub with_id : {World : Type 0} → Query → World × Forwarded → World × Option Msg
with_id req (v, failed) = (v, none)
with_id req (v, empty) = (v, none)
with_id req (v, replied m) = (v, some (record m { id = req.id }))

module _ {World : Type 0} (env : Env World) where
  unfoldable pub resolve_names :
      Config → World → Text → Query → (World → Text → Bool) → List Text → Resolution
  unfolding nx
  resolve_names cfg w qname req has [] = stopped (nx cfg req qname) (codes "block-proxy-missing")
  resolve_names cfg w qname req has (n ∷ names) =
      if any_proxy (has w) (n ∷ names)
      then through cfg.proxy_tun
      else stopped (nx cfg req qname) (codes "block-proxy-missing")

  -- resolveIface
  unfoldable pub resolve_iface : Config → World → Text → Text → Query → Resolution
  unfolding has_prefix parse_interface resolve_names
  resolve_iface cfg w stored qname req =
      if not (is_proxy_interface stored) then through stored else elim env.has_proxy [
        | none ↦ stopped (serv_fail req) (codes "block-proxy-unsupported")
        | some has ↦
            if cfg.proxy_tun == []
            then stopped (serv_fail req) (codes "block-proxy-unsupported")
            else resolve_names cfg w qname req has (parse_interface proxy_prefix stored)
      ]

  -- one round of installRoutesFor's loop, before the rounds that follow
  unfoldable pub install_one :
      Installer World
      → Config
      → Text
      → ℕ
      → (World → World × Bool)
      → Option (Ip × ℕ)
      → World
      → World × Bool
  install_one inst cfg iface rule_id rest none w = rest w
  install_one inst cfg iface rule_id rest (some (ip, ttl)) w =
      let (v, err) =
        inst w (env.show_ip ip) iface (longer (ttl * second) cfg.route_ttl_min) rule_id in
      if err then (v, true) else rest v

  -- the loop of installRoutesFor: the routes installed, and whether one failed
  unfoldable pub install_answers :
      Installer World → Config → Text → ℕ → List Rr → World → World × Bool
  unfolding install_one
  install_answers inst cfg iface rule_id [] w = (w, false)
  install_answers inst cfg iface rule_id (rr ∷ rrs) w =
      install_one inst cfg iface rule_id (install_answers inst cfg iface rule_id rrs) (address rr) w

  -- installRoutesFor
  unfoldable pub install_routes_for : Config → Text → ℕ → Msg → World → World × Bool
  unfolding install_answers
  install_routes_for cfg iface rule_id resp w = elim env.install [
    | none ↦ (w, false)
    | some inst ↦
        if iface == [] then (w, false) else install_answers inst cfg iface rule_id resp.answer w
  ]

  -- the loop of recordProxyMapping
  unfoldable pub record_answers : Config → Text → List Text → ℕ → ℕ → List Rr → Table → Table
  unfolding record_ip
  record_answers cfg host names rule_id now [] t = t
  record_answers cfg host names rule_id now (rr ∷ rrs) t = elim (address rr) [
    | none ↦ record_answers cfg host names rule_id now rrs t
    | some (ip, ttl) ↦ record_answers cfg host names rule_id now rrs (
        record_ip t now (some (env.show_ip ip)) host names (longer (ttl * second) cfg.route_ttl_min)
          rule_id)
  ]

  -- recordProxyMapping; its check for no names is the one that Record makes
  unfoldable pub record_proxy_mapping : Config → Text → Text → ℕ → Msg → World → Table → Table
  unfolding record_answers parse_interface
  record_proxy_mapping cfg host stored rule_id resp w t =
      record_answers cfg host (parse_interface proxy_prefix stored) rule_id (env.clock w)
        resp.answer t

  -- forward: a nil message is an error too, and the ID is the query's
  unfoldable pub forward : World → Query → World × Option Msg
  unfolding with_id
  forward w req = with_id req (env.forward w req)
