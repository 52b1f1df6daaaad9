-- ===== src/LiveConns/Sweep.antt =====
-- What can happen to the registry, and what a sweep then does.
use em_wall.Prelude.{
  ℕ, ◌+◌, ◌≡◌, refl, true, not, ◌&&◌, leb, Option, none, some, List, [], ◌∷◌, Text, ◌==◌, nat_eq,
  text_eq, if◌then◌else◌, lookup, arith, Bool-cases, inl, inr,
}
use em_wall.LiveConns.{
  Tracked, LiveConns, new_live_conns, track, written, read, update, untrack, mark_stale, is_victim,
  sweep_loop, sweep,
}
use em_wall.LiveConns.Count.{
  stale_count, IsCounted, update-IsCounted, track-IsCounted, untrack-IsCounted,
  mark_stale-IsCounted, sweep-IsCounted,
}

-- What can happen to the registry.
pub data Step (l : LiveConns) : LiveConns → Type 0 where
  tracks : (name : Text) (sent now : ℕ) → Step l (track l name sent now)
  writes : (id n now : ℕ) → Step l (update (written n now) l id)
  reads : (id n : ℕ) → Step l (update (read n) l id)
  marks : (names : List Text) → Step l (mark_stale l names).0
  sweeps : (now : ℕ) → Step l (sweep l now).0
  untracks : (id : ℕ) → Step l (untrack l id)

pub data Reachable : LiveConns → Type 0 where
  start : Reachable new_live_conns
  later : {l m : LiveConns} → Reachable l → Step l m → Reachable m

written-stale : (n now : ℕ) (t : Tracked) → (written n now t).stale ≡ t.stale
unfolding written
written-stale n now t = ground arith

read-stale : (n : ℕ) (t : Tracked) → (read n t).stale ≡ t.stale
unfolding read
read-stale n t = ground arith

Step-IsCounted : {l m : LiveConns} → Step l m → IsCounted l → IsCounted m
Step-IsCounted {l} (tracks name sent now) v = track-IsCounted l name sent now v
Step-IsCounted {l} (writes id n now) v =
    update-IsCounted (written n now) l id (written-stale n now) v
Step-IsCounted {l} (reads id n) v = update-IsCounted (read n) l id (read-stale n) v
Step-IsCounted {l} (marks names) v = mark_stale-IsCounted l names v
Step-IsCounted {l} (sweeps now) v = sweep-IsCounted l now v
Step-IsCounted {l} (untracks id) v = untrack-IsCounted l id v

-- Whatever connections come, are used, are marked, swept and go, in any order: the atomic counter is
-- the number of the registered connections that are stale, and none is registered twice.
pub Reachable-IsCounted : {l : LiveConns} → Reachable l → IsCounted l
unfolding stale_count lookup
Reachable-IsCounted start = record { counted = refl; keys = tt; unused = λ id h. refl }
Reachable-IsCounted (later r s) = Step-IsCounted s (Reachable-IsCounted r)

-- A connection after a sweep that looks at every one: a stale one is closed where its oldest write
-- without an answer is 8 seconds old or older.
abbrev pub after_sweep : ℕ → Option Tracked → Option Tracked
after_sweep now none = none
after_sweep now (some t) =
    if t.stale && not t.closed && not (t.since == 0) && leb (t.since + 8000000000) now
    then some (record t { closed = true })
    else some t

victim_lem :
    (now : ℕ) (t : Tracked)
    → is_victim now t
      ≡ (t.stale && not t.closed && not (t.since == 0) && leb (t.since + 8000000000) now)
victim_lem now t = ground arith

lookup-sweep_loop :
    (now id : ℕ) (conns : List (ℕ × Tracked))
    → lookup id (sweep_loop now conns).0 ≡ after_sweep now (lookup id conns)
unfolding lookup sweep_loop
lookup-sweep_loop now id [] = refl
lookup-sweep_loop now id ((k, t) ∷ conns) = let ih = lookup-sweep_loop now id conns in ground arith

none_stale :
    (now id : ℕ) (conns : List (ℕ × Tracked))
    → stale_count conns ≡ 0
    → lookup id conns ≡ after_sweep now (lookup id conns)
unfolding lookup stale_count
none_stale now id [] e = refl
none_stale now id ((k, t) ∷ conns) e = let ih = none_stale now id conns in ground arith

-- In a reachable registry the sweep, which looks at nothing while its counter is 0, does to every
-- connection what a sweep of all would: it closes the stale ones that have stalled for 8 seconds or
-- more, and changes no other.
pub sweep_lem :
    {l : LiveConns} (now id : ℕ)
    → Reachable l
    → lookup id (sweep l now).0.conns ≡ after_sweep now (lookup id l.conns)
unfolding sweep
sweep_lem {l} now id r =
    let v = Reachable-IsCounted r in
    elim (Bool-cases (l.stale == 0)) [
      | inl idle ↦ rw idle (none_stale now id l.conns (ground (arith, idle, v.counted)))
      | inr busy ↦ rw busy (lookup-sweep_loop now id l.conns)
    ]
