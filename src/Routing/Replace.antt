-- ===== src/Routing/Replace.antt =====
-- Replacing a route whose interface changed.
use em_wall.Prelude.{
  ℕ, zero, suc, ◌≡◌, ◌≢◌, ◌∙◌, refl, Bool, true, false, some, List, [], Text, text_eq, nat_eq,
  text_beq_iff, lookup, arith,
}
use em_wall.Routing.{
  Entry, Routes, Reply, add_args, delete_args, route_add_attempts, looks_like_already_exists,
  is_added, remove_one, add_route, drop_old, install,
}

module _ {World : Type 0} (run : World → List Text → World × Reply) (Has : World → Bool)
    (args : List Text) (refused : (v : World) → (run v args).1.failed ≡ true)
    (not_there : (v : World) → looks_like_already_exists (run v args).1.out ≡ false)
    (kept : (v : World) → Has (run v args).0 ≡ Has v) where
  add_route-refused :
      (cancelled : ℕ → Bool) (n : ℕ) (w : World)
      → ((add_route run cancelled n w args).1 ≡ false)
        × (Has (add_route run cancelled n w args).0 ≡ Has w)
  unfolding add_route is_added
  add_route-refused cancelled zero w = (refl, refl)
  add_route-refused cancelled (suc n) w =
      let (v, r) = run w args in
      let no = refused w in
      let new = not_there w in
      let same = kept w in
      let again = add_route-refused cancelled n v in
      let again_not = again.0 in let again_same = again.1 in (ground arith, ground arith)

-- A host's route is to be replaced by one through another interface that is not empty. `Has` says
-- whether the system has a route to the host: a deletion that does not fail leaves it without one, and
-- an addition through the new interface fails, not because the route is there, and changes nothing.
-- If the deletion does not fail, Install returns an error and leaves the table as it was, with the old
-- route, while the system has no route to the host any more.
pub replace_failed :
    {World : Type 0} (run : World → List Text → World × Reply) (Has : World → Bool)
    (routes : Routes) (w : World) (cancelled : ℕ → Bool) (host : Text) (is_v4 : Bool) (iface : Text)
    (now ttl rule_id : ℕ) (prev : Entry)
    → lookup host routes ≡ some prev
    → prev.iface ≢ iface
    → iface ≢ []
    → ((v : World)
        → (run v (delete_args is_v4 prev.is_net host)).1.failed ≡ false
        → Has (run v (delete_args is_v4 prev.is_net host)).0 ≡ false)
    → ((v : World) → (run v (add_args is_v4 false host iface)).1.failed ≡ true)
    → ((v : World)
        → looks_like_already_exists (run v (add_args is_v4 false host iface)).1.out ≡ false)
    → ((v : World) → Has (run v (add_args is_v4 false host iface)).0 ≡ Has v)
    → (run w (delete_args is_v4 prev.is_net host)).1.failed ≡ false
    → ((install run routes w cancelled host (some is_v4) iface now ttl rule_id).2 ≡ true)
      × ((install run routes w cancelled host (some is_v4) iface now ttl rule_id).0 ≡ routes)
      × (Has (install run routes w cancelled host (some is_v4) iface now ttl rule_id).1 ≡ false)
unfolding install drop_old remove_one
replace_failed run Has routes w cancelled host is_v4 iface now ttl rule_id prev at other named
      deletes refused not_there kept deleted =
    let args = add_args is_v4 false host iface in
    let old = (run w (delete_args is_v4 prev.is_net host)).0 in
    let gone : drop_old run routes w host iface is_v4 ≡ old =
      ground (arith, text_beq_iff prev.iface iface) in
    let tried =
      add_route-refused run Has args refused not_there kept cancelled route_add_attempts old in
    let not_added = tried.0 in
    let without = tried.1 ∙ deletes w deleted in
    (
      ground (arith, text_beq_iff iface []),
      ground (arith, text_beq_iff iface []),
      ground (arith, text_beq_iff iface []),
    )
