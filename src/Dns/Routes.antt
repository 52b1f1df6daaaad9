-- ===== src/Dns/Routes.antt =====
-- The manager of routes, as the installer that the DNS server is given.
use em_wall.Prelude.{
  ℕ, ◌+◌, ◌≡◌, refl, ap, ◌∙◌, Bool, true, false, Option, none, some, List, Text, ◌==◌, text_eq,
  text_beq_iff, lookup, arith, Bool-cases, inl, inr,
}
use em_wall.Routing.{Entry, Routes, Reply, install}
use em_wall.Routing.Table.{install_lem}
use em_wall.Dns.{Installer}
use em_wall.Dns.Pinned.{Pins}

-- What ParseIP makes of a host (none where it is no address, else whether it is IPv4), the time, and
-- whether the context ends in a wait are arguments.
module _ {World : Type 0} (run : World → List Text → World × Reply) (cancelled : ℕ → Bool)
    (family : Text → Option Bool) (now : ℕ) where
  unfoldable pub installer : Installer (Routes × World)
  unfolding install
  installer (routes, w) host iface ttl rule_id =
      let (after, v, err) =
        install run routes w cancelled host (family host) iface now ttl rule_id in
      ((after, v), err)

  -- The table has a route for the host, through the interface.
  unfoldable pub HasRoute : Routes × World → Text → Text → Type 0
  HasRoute (routes, w) host iface = (e : Entry) × (lookup host routes ≡ some e) × (e.iface ≡ iface)

  abbrev new_route : Text → Text → Bool → ℕ → ℕ → Entry
  new_route host iface is_v4 ttl rule_id = record {
    host = host;
    iface = iface;
    expires_at = now + ttl;
    rule_id = rule_id;
    is_net = false;
    is_v4 = is_v4;
    is_static = false;
  }

  installs :
      (routes : Routes) (w : World) (o : Option Bool) (host iface : Text) (ttl rule_id : ℕ)
      → (install run routes w cancelled host o iface now ttl rule_id).2 ≡ false
      → (e : Entry) × (lookup host (install run routes w cancelled host o iface now ttl rule_id).0
          ≡ some e)
        × (e.iface ≡ iface)
  installs routes w none host iface ttl rule_id h = absurd (unfold install in cc h)
  installs routes w (some is_v4) host iface ttl rule_id h =
      let at = (install_lem run routes w cancelled host is_v4 iface now ttl rule_id).1 h host in
      let same : (host == host) ≡ true = ground (arith, text_beq_iff host host) in
      (new_route host iface is_v4 ttl rule_id, at ∙ rw same refl, refl)

  keeps :
      (routes : Routes) (w : World) (o : Option Bool) (host iface : Text) (ttl rule_id : ℕ)
      (k : Text)
      → ((e : Entry) × (lookup k routes ≡ some e) × (e.iface ≡ iface))
      → (e : Entry) × (lookup k (install run routes w cancelled host o iface now ttl rule_id).0
          ≡ some e)
        × (e.iface ≡ iface)
  keeps routes w none host iface ttl rule_id k h = unfold install in h
  keeps routes w (some is_v4) host iface ttl rule_id k (e, at, through) =
      let (kept, made) = install_lem run routes w cancelled host is_v4 iface now ttl rule_id in
      elim (Bool-cases (install run routes w cancelled host (some is_v4) iface now ttl rule_id).2) [
        | inl err ↦ (e, ap (lookup k) (kept err) ∙ at, through)
        | inr fine ↦ elim (Bool-cases (host == k)) [
          | inl same ↦ (new_route host iface is_v4 ttl rule_id, made fine k ∙ rw same refl, refl)
          | inr other ↦ (e, made fine k ∙ rw other at, through)
        ]
      ]

  -- The manager's Install keeps what the DNS server relies on: one that returns no error leaves a route
  -- for the host through the interface, and any Install through an interface, failed or not, leaves
  -- the routes through that interface.
  pub installer-Pins : Pins installer HasRoute
  unfolding installer HasRoute
  installer-Pins = record {
    added = λ (routes, w) host iface ttl rule_id h.
        installs routes w (family host) host iface ttl rule_id h;
    kept = λ (routes, w) host iface ttl rule_id k h.
        keeps routes w (family host) host iface ttl rule_id k h;
  }
