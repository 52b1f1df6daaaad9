-- ===== src/Routing.antt =====
-- core/routing/routing.go: the manager of host routes. Running `/sbin/route` is a parameter: from what
-- the system is, it makes what the system is then, whether it failed and what it printed. The time is
-- an argument, the texts of errors are left out, and so are the enumeration of interfaces and of the
-- system's own routes.
pub mod Table
pub mod Replace
use em_wall.Prelude.{
  ℕ, zero, suc, ◌+◌, Bool, true, false, not, ◌&&◌, ◌||◌, Option, none, some, List, [], ◌∷◌, ◌++◌,
  Text, codes, ◌==◌, nat_eq, text_eq, ltb, leb, length, lookup, insert, delete, if◌then◌else◌,
}
use em_wall.Text.{trim_space, contains}

abbrev pub route_add_attempts : ℕ
route_add_attempts = 3

pub record Entry : Type 0 where
  pub host : Text
  pub iface : Text
  pub expires_at : ℕ
  pub rule_id : ℕ
  pub is_net : Bool
  pub is_v4 : Bool
  pub is_static : Bool

abbrev pub Routes : Type 0
Routes = List (Text × Entry)

pub record Reply : Type 0 where
  pub failed : Bool
  pub out : Text

unfoldable pub looks_like_already_exists : Text → Bool
unfolding contains
looks_like_already_exists out =
    contains out (codes "File exists") || contains out (codes "already in table")

unfoldable pub looks_like_not_found : Text → Bool
unfolding contains
looks_like_not_found out =
    contains out (codes "not in table") || contains out (codes "No such process")

-- the arguments after "-n": for "add" and for "delete"
abbrev pub family_args : Bool → List Text
family_args is_v4 = if is_v4 then [] else codes "-inet6" ∷ []

abbrev pub dest_args : Bool → Text → List Text
dest_args is_net dest = (if is_net then codes "-net" else codes "-host") ∷ dest ∷ []

abbrev pub add_args : Bool → Bool → Text → Text → List Text
add_args is_v4 is_net dest iface =
    codes "-n" ∷ codes "add" ∷ family_args is_v4
    ++ (dest_args is_net dest ++ (codes "-interface" ∷ iface ∷ []))

abbrev pub delete_args : Bool → Bool → Text → List Text
delete_args is_v4 is_net dest =
    codes "-n" ∷ codes "delete" ∷ family_args is_v4 ++ dest_args is_net dest

-- what net.ParseIP and net.ParseCIDR make of a destination: whether it is IPv4, and its text
pub record Dest : Type 0 where
  pub is_v4 : Bool
  pub is_net : Bool
  pub text : Text

-- the hosts whose entry passes a test
abbrev pub hosts_where : (Entry → Bool) → Routes → List Text
hosts_where test [] = []
hosts_where test ((h, e) ∷ routes) =
    if test e then h ∷ hosts_where test routes else hosts_where test routes

abbrev pub is_stale : ℕ → Entry → Bool
is_stale now e = not e.is_static && ltb e.expires_at now

module _ {World : Type 0} (run : World → List Text → World × Reply) where
  -- removeOne
  unfoldable pub remove_one : World → Text → Bool → Bool → World × Bool
  unfolding looks_like_not_found
  remove_one w host is_v4 is_net =
      let (v, r) = run w (delete_args is_v4 is_net host) in
      (v, r.failed && not (looks_like_not_found r.out))

  unfoldable pub is_added : Reply → Bool
  unfolding looks_like_already_exists
  is_added r = not r.failed || looks_like_already_exists r.out

  -- the loop over the attempts that are left; `cancelled` says whether the context ends in the wait
  -- after an attempt. The result is whether the route was added.
  unfoldable pub add_route : (ℕ → Bool) → ℕ → World → List Text → World × Bool
  unfolding is_added
  add_route cancelled zero w args = (w, false)
  add_route cancelled (suc n) w args =
      let (v, r) = run w args in
      let again = add_route cancelled n v args in
      if is_added r then (v, true) else if n == 0 || cancelled n then (v, false) else again

  -- the old route goes when the interface changes; its failure is ignored
  unfoldable pub drop_old : Routes → World → Text → Text → Bool → World
  unfolding lookup remove_one
  drop_old routes w key iface is_v4 = elim (lookup key routes) [
    | none ↦ w
    | some prev ↦ if not (prev.iface == iface) then (remove_one w key is_v4 prev.is_net).0 else w
  ]

  -- Install; `is_v4` is what ParseIP makes of the host, none where it is no address. The Boolean is
  -- whether it returned an error.
  unfoldable pub install :
      Routes → World → (ℕ → Bool) → Text → Option Bool → Text → ℕ → ℕ → ℕ → Routes × World × Bool
  unfolding insert add_route drop_old
  install routes w cancelled host none iface now ttl rule_id = (routes, w, true)
  install routes w cancelled host (some is_v4) iface now ttl rule_id =
      let (v, added) =
        add_route cancelled route_add_attempts (drop_old routes w host iface is_v4)
          (add_args is_v4 false host iface) in
      if iface == []
      then (routes, w, true)
      else if added
      then (
        insert host
            (record {
              host = host;
              iface = iface;
              expires_at = now + ttl;
              rule_id = rule_id;
              is_net = false;
              is_v4 = is_v4;
              is_static = false;
            })
            routes,
        v,
        false,
      )
      else (routes, v, true)

  -- the old static route goes when the interface changes
  unfoldable pub drop_old_static : Routes → World → Text → Text → World
  unfolding lookup remove_one
  drop_old_static routes w key iface = elim (lookup key routes) [
    | none ↦ w
    | some prev ↦
        if not (prev.iface == iface) then (remove_one w key prev.is_v4 prev.is_net).0 else w
  ]

  -- InstallStatic; `dest` is what parseDest makes of the destination, none with an error
  unfoldable pub install_static : Routes → World → Option Dest → Text → ℕ → Routes × World × Bool
  unfolding insert drop_old_static is_added
  install_static routes w none iface rule_id = (routes, w, true)
  install_static routes w (some d) iface rule_id =
      let (v, r) =
        run (drop_old_static routes w d.text iface) (add_args d.is_v4 d.is_net d.text iface) in
      if iface == []
      then (routes, w, true)
      else if is_added r
      then (
        insert d.text
            (record {
              host = d.text;
              iface = iface;
              expires_at = 0;
              rule_id = rule_id;
              is_net = d.is_net;
              is_v4 = d.is_v4;
              is_static = true;
            })
            routes,
        v,
        false,
      )
      else (routes, v, true)

  -- Remove
  unfoldable pub remove : Routes → World → Text → Routes × World × Bool
  unfolding lookup delete remove_one
  remove routes w host = elim (lookup host routes) [
    | none ↦ (routes, w, false)
    | some e ↦ let (v, err) = remove_one w host e.is_v4 e.is_net in (delete host routes, v, err)
  ]

  -- the loop over the hosts to remove, with whether one of them returned an error
  pub remove_hosts : List Text → Routes → World → Routes × World × Bool
  unfolding remove
  remove_hosts [] routes w = (routes, w, false)
  remove_hosts (h ∷ hosts) routes w =
      let (rest, v, err) = remove routes w h in
      let (left, u, later) = remove_hosts hosts rest v in (left, u, err || later)

  -- RemoveByRule
  unfoldable pub remove_by_rule : Routes → World → ℕ → Routes × World × Bool
  unfolding remove_hosts
  remove_by_rule routes w rule = remove_hosts (hosts_where (λ e. e.rule_id == rule) routes) routes w

  -- SweepExpired
  unfoldable pub sweep_expired : Routes → World → ℕ → Routes × World × ℕ
  unfolding remove_hosts
  sweep_expired routes w now =
      let stale = hosts_where (is_stale now) routes in
      let (left, v, err) = remove_hosts stale routes w in (left, v, length stale)

  -- Flush
  unfoldable pub flush : Routes → World → Routes × World
  unfolding remove_hosts
  flush routes w =
      let (left, v, err) = remove_hosts (hosts_where (λ e. true) routes) routes w in (left, v)

-- Extend
unfoldable pub extend : Routes → Text → ℕ → ℕ → Routes × Bool
unfolding lookup insert
extend routes host now ttl = elim (lookup host routes) [
  | none ↦ (routes, false)
  | some e ↦ (insert host (record e { expires_at = now + ttl }) routes, true)
]
