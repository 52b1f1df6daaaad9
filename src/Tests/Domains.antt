-- ===== src/Tests/Domains.antt =====
-- Rules, the index over them and the decisions, at concrete rules and names.
use mathlib.Core.Option
use mathlib.Core.List.{Memᴰ}
use em_wall.Prelude.{
  ◌≡◌, ◌≢◌, ◌↔◌, refl, true, none, some, List, [], ◌∷◌, Text, codes, text_beq, delete, All,
  if◌then◌else◌,
}
use em_wall.Net.{v4, IpNet, Parsers}
use em_wall.Rules
use em_wall.Rules.{Rule, block, route, allow, normalize, match, wildcard, validate, specificity}
use em_wall.Rules.Patterns.{Matches, match-Matches}
use em_wall.Rules.Scan.{candidate}
use em_wall.Rules.Index.{Index, empty, new_index}
use em_wall.Rules.Index
use em_wall.Rules.Index.Agrees.{IsNamed, most_specific-new_index}
use em_wall.Rules.Index.Addresses.{most_specific_ip-new_index}
use em_wall.Decision.{routed, reload, failed, expand, of_rule, decide}
use em_wall.Decision.Laws.{decision, decide-reload, routed_by_rule, resolved}

abbrev net10 : IpNet
net10 = record { ip = v4 167772160; free_bits = 24; ones = 8 }

abbrev parsers : Parsers
parsers = record {
  parse_ip = λ s. none;
  parse_cidr = λ s. if text_beq s (codes "10.0.0.0/8") then some net10 else none;
}

abbrev site : Rule
site = record {
  id = 1;
  pattern = codes "*.example.com";
  action = route;
  interface = codes "set:nj";
  enabled = true;
}

abbrev ads : Rule
ads = record {
  id = 2;
  pattern = codes "Ads.example.com.";
  action = block;
  interface = [];
  enabled = true;
}

abbrev lan : Rule
lan = record {
  id = 3;
  pattern = codes "10.0.0.0/8";
  action = allow;
  interface = [];
  enabled = true;
}

abbrev rules : List Rule
rules = site ∷ ads ∷ lan ∷ []

site-IsNamed : IsNamed site
unfolding normalize
site-IsNamed e = cc

ads-IsNamed : IsNamed ads
unfolding normalize
ads-IsNamed e = cc

lan-IsNamed : IsNamed lan
unfolding normalize
lan-IsNamed e = cc

named : All IsNamed rules
named = (site-IsNamed, (ads-IsNamed, (lan-IsNamed, tt)))

abbrev www : Text
www = codes "WWW.example.com"

abbrev rewrite_nj : List (Text × Text)
rewrite_nj = (codes "set:nj", codes "proxy:a,proxy:b") ∷ []

scan_www : Rules.most_specific parsers rules www ≡ some site
unfolding Rules.most_specific
scan_www = refl

most_specific-new_index_example :
    Index.most_specific (new_index parsers rules) www ≡ Rules.most_specific parsers rules www
most_specific-new_index_example = most_specific-new_index parsers rules www named

most_specific_ip-new_index_example :
    Index.most_specific_ip (new_index parsers rules) (v4 167772161)
    ≡ Rules.most_specific_ip parsers rules (v4 167772161)
most_specific_ip-new_index_example = most_specific_ip-new_index parsers (v4 167772161) rules

nonempty_pattern : normalize (codes "*.example.com") ≢ []
unfolding normalize
nonempty_pattern e = cc

nonempty_www : normalize www ≢ []
unfolding normalize
nonempty_www e = cc

accepted : validate parsers (codes "*.example.com") ≡ none
unfolding validate
accepted = refl

match-Matches_example :
    (match (codes "*.example.com") www ≡ true)
    ↔ Matches (normalize (codes "*.example.com")) (normalize www)
match-Matches_example = match-Matches (codes "*.example.com") www nonempty_pattern nonempty_www

decide-reload_example :
    decision parsers rules rewrite_nj empty www
    ≡ of_rule (Option.map (expand rewrite_nj) (Rules.most_specific parsers rules www))
decide-reload_example = decide-reload parsers rules rewrite_nj empty www named

routed_www : (decision parsers rules rewrite_nj empty www).outcome ≡ routed
unfolding decide reload delete
routed_www = refl

routed_by_rule_example :
    (q : Rule) × Memᴰ q rules
    × (candidate parsers www q ≡ true)
    × (q.action ≡ route)
    × ((decision parsers rules rewrite_nj empty www).rule_id ≡ q.id)
    × ((decision parsers rules rewrite_nj empty www).interface ≡ resolved rewrite_nj q.interface)
routed_by_rule_example = routed_by_rule parsers rules rewrite_nj empty www named routed_www

failed_run : (reload parsers failed none empty).1 ≡ true
unfolding reload
failed_run = refl
