-- ===== src/LiveConns.antt =====
-- daemon/stalepath.go: the registry of spliced connections, and the sweep of those whose path changed
-- and that stall. A connection is a number that `track` gives out; the map holds what is known of the
-- registered ones. Times are nanoseconds, 0 is none. An operation is atomic, as the mutex and the
-- atomic fields make it; the order in which Go ranges over the map is that of the list. The function
-- that `track` returns is `untrack`, and the splice calls it once.
pub mod Count
pub mod Sweep
pub mod Rates
use em_wall.Prelude.{
  ℕ, zero, suc, ◌+◌, ◌-◌, Bool, true, false, not, ◌&&◌, ◌||◌, Option, none, some, List, [], ◌∷◌,
  Text, ◌==◌, nat_eq, text_eq, ltb, leb, if◌then◌else◌, lookup, insert, delete, is_listed,
}

abbrev pub stale_path_stall_timeout : ℕ
stale_path_stall_timeout = 8000000000

-- trackedConn, with the fields that the sweep and the map read
pub record Tracked : Type 0 where
  pub name : Text
  pub opened : ℕ
  -- the oldest write that is not answered
  pub since : ℕ
  pub stale : Bool
  pub closed : Bool
  pub up : ℕ
  pub down : ℕ

pub record LiveConns : Type 0 where
  pub conns : List (ℕ × Tracked)
  pub fresh : ℕ
  -- the atomic counter of the stale ones that are still open
  pub stale : ℕ

abbrev pub new_live_conns : LiveConns
new_live_conns = record { conns = []; fresh = 0; stale = 0 }

-- the connection that trackFlow makes
abbrev pub opened_conn : Text → ℕ → ℕ → Tracked
opened_conn name sent now = record {
  name = name;
  opened = now;
  since = 0;
  stale = false;
  closed = false;
  up = sent;
  down = 0;
}

-- trackFlow: a connection through `name`, whose flow has sent some bytes already
unfoldable pub track : LiveConns → Text → ℕ → ℕ → LiveConns
unfolding insert
track l name sent now = record l {
  conns = insert l.fresh (opened_conn name sent now) l.conns;
  fresh = l.fresh + 1;
}

-- (*trackedConn).Write of which `n` bytes went out
unfoldable pub written : ℕ → ℕ → Tracked → Tracked
written n now t =
    if ltb 0 n then record t { up = t.up + n; since = if t.since == 0 then now else t.since } else t

-- (*trackedConn).Read of `n` bytes
unfoldable pub read : ℕ → Tracked → Tracked
read n t = if ltb 0 n then record t { down = t.down + n; since = 0 } else t

-- a method of one registered connection
unfoldable pub update : (Tracked → Tracked) → LiveConns → ℕ → LiveConns
unfolding lookup insert
update f l id = elim (lookup id l.conns) [
  | none ↦ l
  | some t ↦ record l { conns = insert id (f t) l.conns }
]

-- stalledFor
abbrev pub stalled_for : ℕ → Tracked → ℕ
stalled_for now t = if t.since == 0 then 0 else now - t.since

-- the func that unregisters the connection
unfoldable pub untrack : LiveConns → ℕ → LiveConns
unfolding lookup delete
untrack l id = elim (lookup id l.conns) [
  | none ↦ l
  | some t ↦ record l {
    conns = delete id l.conns;
    stale = if t.stale then l.stale - 1 else l.stale;
  }
]

-- whether markStale marks this one
abbrev pub is_hit : List Text → Tracked → Bool
is_hit names t = is_listed t.name names && not t.stale

-- the loop of markStale: the connections after it, and how many it marked
unfoldable pub mark_loop : List Text → List (ℕ × Tracked) → List (ℕ × Tracked) × ℕ
mark_loop names [] = ([], 0)
mark_loop names ((id, t) ∷ conns) =
    let (rest, n) = mark_loop names conns in
    if is_hit names t then ((id, record t { stale = true }) ∷ rest, n + 1) else ((id, t) ∷ rest, n)

-- markStale
unfoldable pub mark_stale : LiveConns → List Text → LiveConns × ℕ
unfolding mark_loop
mark_stale l [] = (l, 0)
mark_stale l (x ∷ xs) =
    let (conns, n) = mark_loop (x ∷ xs) l.conns in
    (record l { conns = conns; stale = l.stale + n }, n)

-- whether the sweep closes this one
abbrev pub is_victim : ℕ → Tracked → Bool
is_victim now t = t.stale && leb stale_path_stall_timeout (stalled_for now t) && not t.closed

-- the loop of sweep: the connections after it, and the victims
unfoldable pub sweep_loop : ℕ → List (ℕ × Tracked) → List (ℕ × Tracked) × List ℕ
sweep_loop now [] = ([], [])
sweep_loop now ((id, t) ∷ conns) =
    let (rest, victims) = sweep_loop now conns in
    if is_victim now t
    then ((id, record t { closed = true }) ∷ rest, id ∷ victims)
    else ((id, t) ∷ rest, victims)

-- sweep, with the connections that it closes
unfoldable pub sweep : LiveConns → ℕ → LiveConns × List ℕ
unfolding sweep_loop
sweep l now =
    let (conns, victims) = sweep_loop now l.conns in
    if l.stale == 0 then (l, []) else (record l { conns = conns }, victims)
