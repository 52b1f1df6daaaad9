-- ===== src/Dns/Pinned.antt =====
-- installRoutesFor: a loop that does not fail has pinned every address of an A or AAAA
-- record of the answer section.
use em_wall.Prelude.{
  ℕ, ◌≡◌, ◌∙◌, refl, sym, ap, subst, Bool, false, ◌*◌, Option, none, some, List, [], ◌∷◌, Text,
  nat_eq, text_eq, All, arith, Bool-cases, inl, inr, if◌then◌else◌,
}
use em_wall.Net.{Ip}
use em_wall.Text.{has_prefix}
use em_wall.ProxyTable.{longer}
use em_wall.Dns.{Rr, Installer, Env, Config, Out, second, address, is_proxied}
use em_wall.Dns.Answers.{install_one, install_answers}

-- What the server relies on of a manager of routes: an Install that does not fail pins the host to the
-- interface, and no Install through an interface undoes a pin to it.
pub record Pins {World : Type 0} (inst : Installer World) (Pinned : World → Text → Text → Type 0)
    : Type 0 where
  pub added :
      (w : World) (host iface : Text) (ttl rule_id : ℕ)
      → (inst w host iface ttl rule_id).1 ≡ false
      → Pinned (inst w host iface ttl rule_id).0 host iface
  pub kept :
      (w : World) (host iface : Text) (ttl rule_id : ℕ) (k : Text)
      → Pinned w k iface
      → Pinned (inst w host iface ttl rule_id).0 k iface

-- the records that a reply delivers
abbrev pub answers : Out → List Rr
answers out = elim out.reply [ none ↦ [] | some m ↦ m.answer ]

-- the interface that a rule's traffic leaves through
unfoldable pub egress : Config → Text → Text
unfolding has_prefix
egress cfg stored = if is_proxied stored then cfg.proxy_tun else stored

module _ {World : Type 0} (env : Env World) (Pinned : World → Text → Text → Type 0) where
  abbrev pub CoveredAt : World → Text → Option (Ip × ℕ) → Type 0
  CoveredAt w iface none = Unit
  CoveredAt w iface (some (ip, ttl)) = Pinned w (env.show_ip ip) iface

  -- The record has no address, or its address is pinned.
  abbrev pub Covered : World → Text → Rr → Type 0
  Covered w iface rr = CoveredAt w iface (address rr)

module _ {World : Type 0} (env : Env World) (inst : Installer World)
    (Pinned : World → Text → Text → Type 0) (pins : Pins inst Pinned) where
  install_one-kept :
      (cfg : Config) (iface : Text) (rule_id : ℕ) (k : Text) (rest : World → World × Bool)
      → ((w : World) → Pinned w k iface → Pinned (rest w).0 k iface)
      → (o : Option (Ip × ℕ)) (w : World) → Pinned w k iface
      → Pinned (install_one env inst cfg iface rule_id rest o w).0 k iface
  unfolding install_one
  install_one-kept cfg iface rule_id k rest after none w h = after w h
  install_one-kept cfg iface rule_id k rest after (some (ip, ttl)) w h =
      let life = longer (ttl * second) cfg.route_ttl_min in
      let one = inst w (env.show_ip ip) iface life rule_id in
      let here = pins.kept w (env.show_ip ip) iface life rule_id k h in
      elim (Bool-cases one.1) [ inl q ↦ rw q here | inr q ↦ rw q (after one.0 here) ]

  install_answers-kept :
      (cfg : Config) (iface : Text) (rule_id : ℕ) (k : Text) (rrs : List Rr) (w : World)
      → Pinned w k iface
      → Pinned (install_answers env inst cfg iface rule_id rrs w).0 k iface
  unfolding install_answers
  install_answers-kept cfg iface rule_id k [] w h = h
  install_answers-kept cfg iface rule_id k (rr ∷ rrs) w h =
      install_one-kept cfg iface rule_id k (install_answers env inst cfg iface rule_id rrs)
        (install_answers-kept cfg iface rule_id k rrs) (address rr) w h

  -- A round that does not end the loop goes on from a world where its own address is pinned.
  install_one-Covered :
      (cfg : Config) (iface : Text) (rule_id : ℕ) (rest : World → World × Bool)
      (o : Option (Ip × ℕ)) (w : World)
      → (install_one env inst cfg iface rule_id rest o w).1 ≡ false
      → (v : World) × (install_one env inst cfg iface rule_id rest o w ≡ rest v)
        × CoveredAt env Pinned v iface o
  unfolding install_one
  install_one-Covered cfg iface rule_id rest none w h = (w, refl, tt)
  install_one-Covered cfg iface rule_id rest (some (ip, ttl)) w h =
      let life = longer (ttl * second) cfg.route_ttl_min in
      let one = inst w (env.show_ip ip) iface life rule_id in
      elim (Bool-cases one.1) [
        | inl q ↦ ground arith
        | inr q ↦ (one.0, rw q refl, pins.added w (env.show_ip ip) iface life rule_id q)
      ]

  CoveredAt-kept :
      (cfg : Config) (iface : Text) (rule_id : ℕ) (rrs : List Rr) (o : Option (Ip × ℕ)) (w : World)
      → CoveredAt env Pinned w iface o
      → CoveredAt env Pinned (install_answers env inst cfg iface rule_id rrs w).0 iface o
  CoveredAt-kept cfg iface rule_id rrs none w h = tt
  CoveredAt-kept cfg iface rule_id rrs (some (ip, ttl)) w h =
      install_answers-kept cfg iface rule_id (env.show_ip ip) rrs w h

  pub install_answers-Covered :
      (cfg : Config) (iface : Text) (rule_id : ℕ) (rrs : List Rr) (w : World)
      → (install_answers env inst cfg iface rule_id rrs w).1 ≡ false
      → All (Covered env Pinned (install_answers env inst cfg iface rule_id rrs w).0 iface) rrs
  unfolding install_answers
  install_answers-Covered cfg iface rule_id [] w h = tt
  install_answers-Covered cfg iface rule_id (rr ∷ rrs) w h =
      let rest = install_answers env inst cfg iface rule_id rrs in
      let (v, e, here) = install_one-Covered cfg iface rule_id rest (address rr) w h in
      subst (λ r. All (Covered env Pinned r.0 iface) (rr ∷ rrs)) (sym e)
        (
          CoveredAt-kept cfg iface rule_id rrs (address rr) v here,
          install_answers-Covered cfg iface rule_id rrs v (ap (λ r. r.1) (sym e) ∙ h),
        )
