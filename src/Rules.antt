-- ===== src/Rules.antt =====
-- core/rules/rules.go: rules, the matching of names and addresses, and the scans for the most
-- specific rule. `CreatedAt` and `UpdatedAt` of a rule are never read by this code and left out.
mod Ranking
pub mod Patterns
pub mod Scan
pub mod Index
use em_wall.Prelude.{
  ℕ, ◌+◌, ◌*◌, Bool, true, false, not, ◌&&◌, ◌||◌, Option, none, some, List, [], ◌∷◌, Text, codes,
  ◌==◌, nat_eq, text_eq, ltb, leb, length, drop, if◌then◌else◌, text_beq,
}
use em_wall.Text.{to_lower, trim_space, trim_suffix, has_prefix, has_suffix, contains_byte, split}
use em_wall.Net.{Ip, IpNet, Parsers, host_net, contains}

-- `other` is a string that is none of the three constants.
pub data Action : Type 0 where
  block allow route : Action
  other : Text → Action

unfoldable pub valid_action : Action → Bool
valid_action (other s) = false
valid_action _ = true

pub record Rule : Type 0 where
  pub id : ℕ
  pub pattern : Text
  pub action : Action
  pub interface : Text
  pub enabled : Bool

unfoldable pub normalize : Text → Text
unfolding to_lower trim_space trim_suffix
normalize s = trim_suffix (to_lower (trim_space s)) (codes ".")

abbrev pub wildcard : Text
wildcard = codes "*."

abbrev pub dot : ℕ
dot = b'.'

-- Match, from the line after the two calls of normalize
unfoldable pub match_normal : Text → Text → Bool
unfolding has_prefix has_suffix text_beq
match_normal p n =
    if p == [] || n == []
    then false
    else if has_prefix p wildcard
    then n == drop 2 p || has_suffix n (dot ∷ drop 2 p)
    else p == n

unfoldable pub match : Text → Text → Bool
unfolding normalize match_normal
match pattern name = match_normal (normalize pattern) (normalize name)

unfoldable pub specificity : Text → ℕ
unfolding normalize has_prefix split text_beq
specificity pattern =
    let p = normalize pattern in
    let exact = not (has_prefix p wildcard) in
    let body = if exact then p else drop 2 p in
    let score = length (split body dot) * 2 in
    if p == [] then 0 else if exact then score + 1 else score

pub data PatternError : Type 0 where
  empty_pattern invalid_pattern : PatternError

label_byte : ℕ → Bool
label_byte r = (leb b'a' r && leb r b'z') || (leb b'0' r && leb r b'9') || r == b'-'

label_bytes : Text → Bool
label_bytes [] = true
label_bytes (r ∷ s) = label_byte r && label_bytes s

-- the loop over the labels
labels_valid : List Text → Bool
unfolding label_byte label_bytes text_beq
labels_valid [] = true
labels_valid (l ∷ ls) = not (l == []) && label_bytes l && labels_valid ls

module _ (net : Parsers) where
  unfoldable pub parse_cidr : Text → Option IpNet
  unfolding normalize text_beq
  parse_cidr pattern =
      let p = normalize pattern in
      if p == []
      then none
      else elim (net.parse_ip p) [ some ip ↦ some (host_net ip) | none ↦ net.parse_cidr p ]

  unfoldable pub is_ip_rule : Text → Bool
  unfolding parse_cidr
  is_ip_rule pattern = elim (parse_cidr pattern) [ some n ↦ true | none ↦ false ]

  unfoldable pub match_key : Text → Text → Bool
  unfolding parse_cidr match contains
  match_key pattern key = elim (parse_cidr pattern) [
    | some n ↦ elim (net.parse_ip (normalize key)) [ some ip ↦ contains n ip | none ↦ false ]
    | none ↦ match pattern key
  ]

  -- Validate, from the line after the call of normalize; `none` is the nil error
  unfoldable pub validate_normal : Text → Option PatternError
  unfolding is_ip_rule has_prefix contains_byte split labels_valid
  validate_normal p =
      let body = if has_prefix p wildcard then drop 2 p else p in
      if p == []
      then some empty_pattern
      else if contains_byte p 32
      then some invalid_pattern
      else if is_ip_rule p
      then none
      else if body == [] || contains_byte body b'*'
      then some invalid_pattern
      else if labels_valid (split body dot)
      then none
      else some invalid_pattern

  unfoldable pub validate : Text → Option PatternError
  unfolding normalize validate_normal
  validate pattern = validate_normal (normalize pattern)

-- The variables of the scans. `bound` is the source's best score plus one, which starts at 0.
pub record Best : Type 0 where
  pub best : Option Rule
  pub bound : ℕ

abbrev pub no_best : Best
no_best = record { best = none; bound = 0 }

-- score > bestScore || (score == bestScore && best != nil && r.ID < best.ID)
abbrev pub beats : Best → Rule → ℕ → Bool
beats b r score =
    leb b.bound score
    || (score + 1 == b.bound && elim b.best [ some q ↦ ltb r.id q.id | none ↦ false ])

unfoldable pub consider : Best → Rule → ℕ → Best
consider b r score = if beats b r score then record { best = some r; bound = score + 1 } else b

module _ (net : Parsers) where
  scan_step : Text → Best → Rule → Best
  unfolding is_ip_rule match specificity consider
  scan_step name b r =
      if not r.enabled
      then b
      else if is_ip_rule net r.pattern
      then b
      else if not (match r.pattern name)
      then b
      else consider b r (specificity r.pattern)

  scan : Text → Best → List Rule → Best
  scan name b [] = b
  scan name b (r ∷ rs) = scan name (scan_step name b r) rs

  unfoldable pub most_specific : List Rule → Text → Option Rule
  unfolding scan_step scan
  most_specific rules name = (scan name no_best rules).best

  scan_ip_step : Ip → Best → Rule → Best
  unfolding parse_cidr contains consider
  scan_ip_step ip b r = if not r.enabled then b else elim (parse_cidr net r.pattern) [
    | some n ↦ if contains n ip then consider b r n.ones else b
    | none ↦ b
  ]

  scan_ip : Ip → Best → List Rule → Best
  scan_ip ip b [] = b
  scan_ip ip b (r ∷ rs) = scan_ip ip (scan_ip_step ip b r) rs

  unfoldable pub most_specific_ip : List Rule → Ip → Option Rule
  unfolding scan_ip_step scan_ip
  most_specific_ip rules ip = (scan_ip ip no_best rules).best
