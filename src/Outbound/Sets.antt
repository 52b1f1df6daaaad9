-- ===== src/Outbound/Sets.antt =====
-- core/xray/set.go: named sets of outbounds.
use em_wall.Prelude.{
  Bool, true, false, not, ◌&&◌, Option, none, some, List, [], ◌∷◌, ◌++◌, Text, codes, ◌==◌, text_eq,
  length, drop, lookup, if◌then◌else◌,
}
use em_wall.Text.{has_prefix, join}
use em_wall.Outbound.{
  Kind, xray, xraysub, DialerRef, comma, xray_prefix, proxy_prefix, normalize_name,
  internal_proxy_name, parse_dialer, is_seen,
}

abbrev pub set_prefix : Text
set_prefix = codes "xrayset:"

unfoldable pub is_set_interface : Text → Bool
unfolding has_prefix
is_set_interface s = has_prefix s set_prefix

unfoldable pub set_interface : Text → Text
unfolding normalize_name
set_interface name = set_prefix ++ normalize_name name

unfoldable pub parse_set_name : Text → Text
unfolding is_set_interface normalize_name
parse_set_name s = if is_set_interface s then normalize_name (drop (length set_prefix) s) else []

pub data Members : Type 0 where
  members : List DialerRef → Members
  invalid_member empty_set : Members

abbrev pub cons_member : DialerRef → Option (List DialerRef) → Option (List DialerRef)
cons_member r none = none
cons_member r (some refs) = some (r ∷ refs)

-- the loop of ParseSetMembers, with what was seen; none is a subscription
unfoldable pub set_members : List DialerRef → List DialerRef → Option (List DialerRef)
set_members seen [] = some []
set_members seen (r ∷ refs) =
    let again = set_members seen refs in
    let first = set_members (r ∷ seen) refs in
    elim r.kind [ xraysub ↦ none | _ ↦ if is_seen r seen then again else cons_member r first ]

abbrev pub of_members : Option (List DialerRef) → Members
of_members none = invalid_member
of_members (some []) = empty_set
of_members (some (r ∷ refs)) = members (r ∷ refs)

unfoldable pub checked : Option (List DialerRef) → Members
unfolding set_members
checked none = invalid_member
checked (some refs) = of_members (set_members [] refs)

unfoldable pub parse_set_members : Text → Members
unfolding parse_dialer checked
parse_set_members s = checked (parse_dialer s)

abbrev pub is_xray : Kind → Bool
is_xray xray = true
is_xray _ = false

abbrev pub all_xray : List DialerRef → Bool
all_xray [] = true
all_xray (r ∷ refs) = is_xray r.kind && all_xray refs

abbrev pub plain_names : List DialerRef → List Text
plain_names [] = []
plain_names (r ∷ refs) = r.name ∷ plain_names refs

unfoldable pub proxy_names : List DialerRef → List Text
unfolding internal_proxy_name
proxy_names [] = []
proxy_names (r ∷ refs) =
    (if is_xray r.kind then internal_proxy_name r.name else r.name) ∷ proxy_names refs

unfoldable pub expand_members : List DialerRef → Text
unfolding join proxy_names
expand_members [] = []
expand_members (r ∷ refs) =
    if all_xray (r ∷ refs)
    then xray_prefix ++ join (plain_names (r ∷ refs)) comma
    else proxy_prefix ++ join (proxy_names (r ∷ refs)) comma

unfoldable pub canonicalize_interface : Text → Text
unfolding is_set_interface parse_set_name set_interface
canonicalize_interface s =
    if not (is_set_interface s)
    then s
    else if parse_set_name s == []
    then s
    else set_interface (parse_set_name s)

unfoldable pub expand_set_interface : Text → List (Text × Text) → Text
unfolding parse_set_name lookup
expand_set_interface stored expansions =
    if parse_set_name stored == []
    then stored
    else elim (lookup (parse_set_name stored) expansions) [ some v ↦ v | none ↦ stored ]
