-- ===== src/Dns.antt =====
-- core/dnsproxy/dnsproxy.go: the DNS server's answer to a query. What the code reaches outside is a
-- record of functions over the state of the world: the forwarder, the manager of routes, the check of
-- an interface, the store of proxies, the clock and the text of an address; the interfaces that may be
-- nil are options. A message is its ID, code, answer and additional sections and the SOAs of its
-- authority section. The code looks for addresses in A and AAAA records of the answer only: additional
-- records, and the address hints of other types such as HTTPS and SVCB, go out as they came. The
-- listeners, timeouts of a call and the logger's own lines are left out.
pub mod Answers
pub mod Fake
pub mod Handle
pub mod Upstream
pub mod Xray
pub mod Pinned
pub mod Closed
pub mod Replied
pub mod Routes
pub mod Mapped
use em_wall.Prelude.{
  ℕ, ◌*◌, ◌/◌, ◌%◌, ◌^◌, Bool, true, false, not, ◌&&◌, ◌||◌, Option, none, some, List, [], ◌∷◌,
  ◌++◌, Text, codes, ◌==◌, nat_eq, text_eq, if◌then◌else◌, map,
}
use em_wall.Text.{to_lower, trim_suffix, has_prefix, join, contains_byte}
use em_wall.Net.{Ip, v4}
use em_wall.Outbound.{comma, parse_interface, xray_prefix, proxy_prefix, internal_proxy_name}
use em_wall.Rules.Index.{Index}
use em_wall.Decision.{Outcome, allowed, blocked, routed, Decision, decide}
use em_wall.FakeIp.{Pool, allocate, release}
use em_wall.ProxyTable.{Table, record_ip, longer}

-- A record, with its time to live in seconds; one of another type has the addresses that it hints at.
pub data Rr : Type 0 where
  a : Option Ip → ℕ → Rr
  aaaa : Option Ip → ℕ → Rr
  other_rr : List Ip → Rr

pub record Soa : Type 0 where
  pub zone : Text
  pub ttl : ℕ

pub record Msg : Type 0 where
  pub id : ℕ
  pub rcode : ℕ
  pub answer : List Rr
  pub ns : List Soa
  pub extra : List Rr
  pub truncated : Bool

pub record Question : Type 0 where
  pub name : Text
  pub qtype : ℕ

pub record Query : Type 0 where
  pub id : ℕ
  pub questions : List Question

abbrev pub type_a : ℕ
type_a = 1

abbrev pub rcode_success : ℕ
rcode_success = 0

abbrev pub rcode_server_failure : ℕ
rcode_server_failure = 2

abbrev pub rcode_name_error : ℕ
rcode_name_error = 3

abbrev pub second : ℕ
second = 1000000000

-- what a forwarder returns: an error, a nil message or a message
pub data Forwarded : Type 0 where
  failed empty : Forwarded
  replied : Msg → Forwarded

-- Routes.Install of a host through an interface, for a time and a rule; whether it failed
abbrev pub Installer : Type 0 → Type 0
Installer World = World → Text → Text → ℕ → ℕ → World × Bool

pub record Env (World : Type 0) : Type 0 where
  pub forward : World → Query → World × Forwarded
  pub install : Option (Installer World)
  pub is_up : Option (World → Text → Bool)
  pub has_proxy : Option (World → Text → Bool)
  pub clock : World → ℕ
  pub show_ip : Ip → Text

pub record Config : Type 0 where
  pub negative_ttl : ℕ
  pub route_ttl_min : ℕ
  pub proxy_tun : Text
  pub has_logs : Bool
  pub has_unmatched : Bool

pub record Server (World : Type 0) : Type 0 where
  pub index : Index
  pub fake_ip : Option Pool
  pub table : Table
  pub world : World

-- one call of LogSink.Log
pub record Line : Type 0 where
  pub name : Text
  pub action : Text
  pub iface : Text
  pub rule_id : ℕ
  pub client_ip : Text

-- What a query brings about besides the new state: the message written, the lines logged and the
-- names passed to Unmatched.
pub record Out : Type 0 where
  pub reply : Option Msg
  pub lines : List Line
  pub unmatched : List Text

abbrev pub silent : Out
silent = record { reply = none; lines = []; unmatched = [] }

-- parentDomain
unfoldable pub parent_domain : Text → Text
parent_domain [] = []
parent_domain (c ∷ s) = after_dot (c ∷ s) (c ∷ s)
  where
    after_dot : Text → Text → Text
    after_dot name [] = name
    after_dot name (c ∷ s) = let rest = after_dot name s in if c == b'.' then s else rest

-- the message of writeNX
unfoldable pub nx : Config → Query → Text → Msg
unfolding parent_domain
nx cfg req name = record {
  id = req.id;
  rcode = rcode_name_error;
  answer = [];
  ns = record { zone = parent_domain name; ttl = cfg.negative_ttl } ∷ [];
  extra = [];
  truncated = false;
}

-- the message of writeServFail
abbrev pub serv_fail : Query → Msg
serv_fail req = record {
  id = req.id;
  rcode = rcode_server_failure;
  answer = [];
  ns = [];
  extra = [];
  truncated = false;
}

-- the message of writeEmpty
unfoldable pub no_data : Config → Query → Text → Msg
unfolding parent_domain
no_data cfg req name = record {
  id = req.id;
  rcode = rcode_success;
  answer = [];
  ns = record { zone = parent_domain name; ttl = cfg.negative_ttl } ∷ [];
  extra = [];
  truncated = false;
}

-- a reply, and what `log` passes on of a line
abbrev pub answer_with : Config → Msg → Line → Out
answer_with cfg m line = record {
  reply = some m;
  lines = if cfg.has_logs then line ∷ [] else [];
  unmatched = [];
}

abbrev pub is_proxy_interface : Text → Bool
is_proxy_interface s = has_prefix s proxy_prefix

abbrev pub is_xray_interface : Text → Bool
is_xray_interface s = has_prefix s xray_prefix

abbrev pub is_proxied : Text → Bool
is_proxied s = is_proxy_interface s || is_xray_interface s

-- the arrow in UTF-8, with a space on each side
abbrev arrow : Text
arrow = 32 ∷ 226 ∷ 134 ∷ 146 ∷ 32 ∷ []

-- the label that the log lines of a route have
unfoldable pub log_iface : Text → Text → Text
unfolding has_prefix
log_iface stored iface = if is_proxied stored then stored ++ (arrow ++ iface) else iface

-- the line of a route, once its action is known
unfoldable pub route_line : Text → Text → Text → ℕ → Text → Text → Line
unfolding log_iface
route_line name stored iface rule_id client action = record {
  name = name;
  action = action;
  iface = log_iface stored iface;
  rule_id = rule_id;
  client_ip = client;
}

-- translateXrayInterface
unfoldable pub translate_xray_interface : Text → Text
unfolding has_prefix parse_interface internal_proxy_name join
translate_xray_interface stored =
    if not (is_xray_interface stored)
    then stored
    else proxy_prefix ++ join (map internal_proxy_name (parse_interface xray_prefix stored)) comma

-- the address of an A or AAAA record that has one, with the record's time to live
abbrev pub address : Rr → Option (Ip × ℕ)
address (a none ttl) = none
address (a (some ip) ttl) = some (ip, ttl)
address (aaaa none ttl) = none
address (aaaa (some ip) ttl) = some (ip, ttl)
address (other_rr hints) = none

-- what resolveIface comes to: an interface, or the answer that it wrote
pub data Resolution : Type 0 where
  through : Text → Resolution
  stopped : Msg → Text → Resolution

abbrev pub any_proxy : (Text → Bool) → List Text → Bool
any_proxy has [] = false
any_proxy has (n ∷ names) = has n || any_proxy has names

-- the name that handle asks the engine about
unfoldable pub query_name : Question → Text
unfolding to_lower trim_suffix
query_name q = trim_suffix (to_lower q.name) (codes ".")
