-- ===== src/Outbound/Cycle.antt =====
-- core/xray/dialer.go: DetectDialerCycle, which refuses a dialer that would route an entry through
-- itself. The colours are a function from names; the depth of the search is bounded by fuel.
pub mod Search
pub mod Correct
use em_wall.Prelude.{
  ℕ, zero, suc, ◌+◌, Bool, true, false, Option, none, some, List, [], ◌∷◌, ◌++◌, Text, ◌==◌, nat_eq,
  text_eq, length, lookup, insert, if◌then◌else◌,
}
use em_wall.Outbound.{DialerRef, Kind, xray, xraysub, proxy, normalize_name, parse_dialer, or_empty}

-- Config, as far as this code reads it
pub record Config : Type 0 where
  pub id : ℕ
  pub name : Text
  pub dialer : Text

-- RefsByKind: the names of the entries, the subscriptions and the proxies
abbrev pub refs_by_kind : List DialerRef → List Text × List Text × List Text
refs_by_kind [] = ([], [], [])
refs_by_kind (r ∷ refs) =
    let (xrays, subs, proxies) = refs_by_kind refs in
    elim r.kind [
      | xray ↦ (r.name ∷ xrays, subs, proxies)
      | xraysub ↦ (xrays, r.name ∷ subs, proxies)
      | proxy ↦ (xrays, subs, r.name ∷ proxies)
    ]

abbrev pub Graph : Type 0
Graph = List (Text × List Text)

abbrev pub targets_of : Option (List Text) → List Text
targets_of none = []
targets_of (some ms) = ms

-- adj[n]
unfoldable pub targets : Graph → Text → List Text
unfolding lookup
targets adj n = targets_of (lookup n adj)

-- the edges of one entry, unless it is the one to be replaced or its field does not parse
unfoldable pub add_entry : ℕ → Config → Graph → Graph
unfolding insert normalize_name parse_dialer
add_entry self_id c adj = if c.id == self_id then adj else elim (parse_dialer c.dialer) [
  | none ↦ adj
  | some refs ↦ insert (normalize_name c.name) (refs_by_kind refs).0 adj
]

unfoldable pub add_entries : ℕ → List Config → Graph → Graph
unfolding add_entry
add_entries self_id [] adj = adj
add_entries self_id (c ∷ entries) adj = add_entries self_id entries (add_entry self_id c adj)

unfoldable pub dialer_graph : List Config → ℕ → Text → Text → Graph
unfolding add_entries insert normalize_name parse_dialer
dialer_graph entries self_id self_name self_dialer =
    insert (normalize_name self_name) (refs_by_kind (or_empty (parse_dialer self_dialer))).0
      (add_entries self_id entries [])

abbrev pub visiting : ℕ
visiting = 1

abbrev pub finished : ℕ
finished = 2

abbrev pub Colors : Type 0
Colors = Text → ℕ

unfoldable pub paint : Text → ℕ → Colors → Colors
paint n v c m = if n == m then v else c m

-- what the search from a name returns: true, or false with the colours it left
pub data Answer : Type 0 where
  cyclic out_of_fuel : Answer
  acyclic : Colors → Answer

abbrev pub and_then : Answer → (Colors → Answer) → Answer
and_then cyclic f = cyclic
and_then out_of_fuel f = out_of_fuel
and_then (acyclic c) f = f c

-- the loop over adj[n]
unfoldable pub visit : (Colors → Text → Answer) → Colors → List Text → Answer
visit search c [] = acyclic c
visit search c (m ∷ ms) =
    let skip = visit search c ms in
    let go = and_then (search c m) (λ d. visit search d ms) in
    if c m == visiting then cyclic else if c m == 0 then go else skip

-- dfs
unfoldable pub dfs : ℕ → Graph → Colors → Text → Answer
unfolding visit paint targets
dfs zero adj c n = out_of_fuel
dfs (suc k) adj c n =
    and_then (visit (dfs k adj) (paint n visiting c) (targets adj n))
      (λ d. acyclic (paint n finished d))

-- every name that the graph mentions
abbrev pub mentioned : Graph → List Text
mentioned [] = []
mentioned ((n, ms) ∷ adj) = ms ++ mentioned adj

abbrev pub verdict : Answer → Option Bool
verdict cyclic = some true
verdict (acyclic c) = some false
verdict out_of_fuel = none

unfoldable pub search_from : Graph → Text → Option Bool
unfolding dfs
search_from adj self = verdict (dfs (suc (suc (length (mentioned adj)))) adj (λ n. 0) self)

-- DetectDialerCycle; none would be a search that does not end
unfoldable pub detect_dialer_cycle : List Config → ℕ → Text → Text → Option Bool
unfolding dialer_graph search_from normalize_name
detect_dialer_cycle entries self_id self_name self_dialer =
    search_from (dialer_graph entries self_id self_name self_dialer) (normalize_name self_name)
