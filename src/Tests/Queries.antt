-- ===== src/Tests/Queries.antt =====
-- Queries to the DNS server, and the replies of two upstream servers.
use em_wall.Prelude.{
  ℕ, ◌+◌, ◌/◌, ◌%◌, ◌≡◌, ◌≢◌, ◌⊎◌, ◌∙◌, sym, refl, delete, Bool, true, false, Option, none, some,
  List, [], ◌∷◌, Text, codes, lookup, text_beq, map, if◌then◌else◌, Bool-cases, inl, inr,
}
use em_wall.Net.{Ip, v4, v6, Parsers}
use em_wall.Text.{has_prefix}
use em_wall.Outbound.{parse_interface, proxy_prefix, xray_prefix, internal_proxy_name}
use em_wall.Rules.{Rule, route}
use em_wall.Rules.Index.{new_index}
use em_wall.Decision.{decide, routed}
use em_wall.FakeIp.{Pool}
use em_wall.ProxyTable.{Table}
use em_wall.ProxyTable.Index.{IsIndexed, member}
use em_wall.Routing.{Routes, Reply}
use em_wall.Dns.{
  other_rr, Msg, a, Question, Query, Forwarded, failed, replied, Env, Config, Server, Line, Out,
  query_name, is_xray_interface, translate_xray_interface, type_a,
}
use em_wall.Dns.Fake.{handle_fake_ip}
use em_wall.Dns.Handle.{handle_question}
use em_wall.Dns.Pinned.{answers, egress}
use em_wall.Dns.Closed.{Closed, handle-Closed}
use em_wall.Dns.Mapped.{IsMapped, handle_fake_ip_lem}
use em_wall.Dns.Routes.{installer, HasRoute, installer-Pins}
use em_wall.Dns.Upstream.{exchange, forward_best}
use em_wall.Dns.Upstream.Ranked.{rank_of, top, Gives, forward_best_lem}
use em_wall.Dns.Replied.{is_logged, once, Answered, handle-Answered}
use em_wall.Dns.Xray.{parse_interface-translate_xray_interface}

abbrev parsers : Parsers
parsers = record { parse_ip = λ s. none; parse_cidr = λ s. none }

-- a name through an interface, and one through two xray entries
abbrev office : Rule
office = record {
  id = 4;
  pattern = codes "*.office.example";
  action = route;
  interface = codes "utun7";
  enabled = true;
}

abbrev rules : List Rule
rules = office ∷ []

-- a system that runs every command, and counts them
abbrev obeys : ℕ → List Text → ℕ × Reply
obeys w args = (w + 1, record { failed = false; out = [] })

abbrev family : Text → Option Bool
family host = some true

abbrev patient : ℕ → Bool
patient i = false

abbrev answer_of : Msg
answer_of = record {
  id = 0;
  rcode = 0;
  answer = a (some (v4 3405803785)) 20 ∷ [];
  ns = [];
  extra = a (some (v4 3405803786)) 20 ∷ other_rr (v4 3405803787 ∷ []) ∷ [];
  truncated = false;
}

abbrev show_ip : Ip → Text
show_ip (v4 n) = n / 256 ∷ n % 256 ∷ []
show_ip (v6 n) = []

abbrev env : Env (Routes × ℕ)
env = record {
  forward = λ w req. (w, replied answer_of);
  install = some (installer obeys patient family 1000);
  is_up = none;
  has_proxy = some (λ w name. true);
  clock = λ w. 1000;
  show_ip = show_ip;
}

abbrev config : Config
config = record {
  negative_ttl = 60;
  route_ttl_min = 30000000000;
  proxy_tun = codes "utun4";
  has_logs = true;
  has_unmatched = false;
}

abbrev table : Table
table = record { by_ip = []; by_rule = []; min_ttl = 60000000000 }

abbrev server : Server (Routes × ℕ)
server = record { index = new_index parsers rules; fake_ip = none; table = table; world = ([], 0) }

abbrev wiki : Question
wiki = record { name = codes "Wiki.office.example."; qtype = type_a }

abbrev query : Query
query = record { id = 77; questions = wiki ∷ [] }

is_routed : (decide server.index (query_name wiki)).outcome ≡ routed
unfolding decide query_name new_index delete
is_routed = refl

is_utun7 : (decide server.index (query_name wiki)).interface ≡ codes "utun7"
unfolding decide query_name new_index delete
is_utun7 = refl

has_interface : (decide server.index (query_name wiki)).interface ≢ []
has_interface e = nonempty (sym is_utun7 ∙ e)
  where
    nonempty : codes "utun7" ≢ []
    nonempty e = cc

handle-Closed_example :
    Closed env
      (installer obeys patient family 1000)
      (HasRoute obeys patient family 1000)
      (installer-Pins obeys patient family 1000)
      refl
      config
      query
      (egress config (decide server.index (query_name wiki)).interface)
      (handle_question env config server query (wiki ∷ []) (codes "10.0.0.9"))
handle-Closed_example =
    handle-Closed env (installer obeys patient family 1000) (HasRoute obeys patient family 1000)
      (installer-Pins obeys patient family 1000) refl config query server wiki [] (codes "10.0.0.9")
      is_routed has_interface

-- a block of 256 addresses, all free
abbrev pool : Pool
pool = record {
  base = 3323068416;
  size = 256;
  cursor = 0;
  ttl = 604800000000000;
  by_host = [];
  by_ip = [];
  heap = λ r. record { ip = 0; host = []; expiry = 0; stored = 0 };
  fresh = 0;
  has_store = false;
  pending = [];
}

abbrev proxied : Text
proxied = codes "proxy:home,work"

two_names : parse_interface proxy_prefix proxied ≡ codes "home" ∷ codes "work" ∷ []
unfolding parse_interface text_beq
two_names = refl

table-IsIndexed : IsIndexed table
unfolding member lookup
table-IsIndexed = record { at = λ rule key. refl; keys = tt }

abbrev line : Text → Line
line action = record {
  name = codes "web.example";
  action = action;
  iface = proxied;
  rule_id = 9;
  client_ip = [];
}

abbrev served : Server (Routes × ℕ) × Out
served =
    handle_fake_ip env config server pool query wiki (codes "web.example") (codes "utun4") proxied
      line 9

handle_fake_ip_lem_example :
    ((answers served.1 ≡ []) × (served.0.table ≡ table))
    ⊎ ((v : ℕ) × IsMapped env config query served
          (codes "web.example")
          (codes "home" ∷ codes "work" ∷ [])
          9
          v
          (1000 + 604800000000000)
          table)
handle_fake_ip_lem_example =
    handle_fake_ip_lem env config query (λ w name. true) refl (codes "web.example") proxied
      (codes "home") (codes "work" ∷ []) two_names server pool wiki (codes "utun4") line 9
      table-IsIndexed

-- a server that refuses every name, and one that knows them all
abbrev local : Text
local = codes "10.0.0.1:53"

abbrev public : Text
public = codes "9.9.9.9:53"

abbrev refusal : Msg
refusal = record { id = 0; rcode = 3; answer = []; ns = []; extra = []; truncated = false }

abbrev asked : Text → Forwarded
asked s = if text_beq s local then replied answer_of else replied refusal

abbrev over_udp : ℕ → Text → ℕ × Forwarded
over_udp w s = (w + 1, asked s)

as_asked : (w : ℕ) (s : Text) → (exchange over_udp over_udp w s).1 ≡ asked s
unfolding exchange
as_asked w s = elim (Bool-cases (text_beq s local)) [ inl e ↦ rw e refl | inr e ↦ rw e refl ]

forward_best_lem_example :
    let result = (forward_best over_udp over_udp (public ∷ local ∷ []) 0).1 in
    (rank_of result ≡ top asked (public ∷ local ∷ []))
    × ((result ≡ failed) ⊎ Gives asked (public ∷ local ∷ []) result)
forward_best_lem_example = forward_best_lem over_udp over_udp asked as_asked (public ∷ local ∷ []) 0

abbrev stored : Text
stored = codes "xray: Home,,work "

is_xray : is_xray_interface stored ≡ true
unfolding has_prefix
is_xray = refl

parse_interface-translate_xray_interface_example :
    parse_interface proxy_prefix (translate_xray_interface stored)
    ≡ map internal_proxy_name (parse_interface xray_prefix stored)
parse_interface-translate_xray_interface_example =
    parse_interface-translate_xray_interface stored is_xray

handle-Answered_example :
    Answered env config query
      (if is_logged (decide server.index (query_name wiki)).outcome
        then once env config query
        else 0)
      (handle_question env config server query (wiki ∷ []) (codes "10.0.0.9"))
handle-Answered_example = handle-Answered env config query server wiki [] (codes "10.0.0.9")
