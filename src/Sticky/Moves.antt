-- ===== src/Sticky/Moves.antt =====
-- When a binding moves to another upstream.
use em_wall.Prelude.{
  ℕ, ◌+◌, ◌≤◌, ◌<◌, ◌≡◌, ◌≢◌, refl, false, some, List, [], ◌∷◌, nat_eq, Text, text_eq, text_beq_iff,
  leb, lookup, insert, lookup-insert, lookup-prune, IsMap, insert-IsMap, arith,
}
use em_wall.Sticky.{
  sticky_ttl, miss_reset, move_after, Entry, Bindings, gone, sweep, set, miss_entry, miss,
}

-- The misses of a connection after another, at these times.
abbrev pub misses : Bindings → Text → Text → List ℕ → Bindings
misses s key name [] = s
misses s key name (t ∷ ts) = misses (miss s key name t).0 key name ts

-- The times follow one another, none more than the reset interval after the one before it.
abbrev pub Steady : ℕ → List ℕ → ℕ → Type 0
Steady p [] u = (p ≤ u) × (u ≤ p + miss_reset)
Steady p (t ∷ ts) u = (p ≤ t) × ((t ≤ p + miss_reset) × Steady t ts u)

Steady-le : (p : ℕ) (ts : List ℕ) (u : ℕ) → Steady p ts u → p ≤ u
Steady-le p [] u h = h.0
Steady-le p (t ∷ ts) u h = ground (arith, Steady-le t ts u h.1.1)

-- The entry of a run of misses that began at `first`, the last of them at `last`.
pub record InRun (e : Entry) (name : Text) (at first last : ℕ) : Type 0 where
  pub name_is : e.name ≡ name
  pub at_is : e.at ≡ at
  pub some_misses : 1 ≤ e.misses
  pub first_is : e.miss_first ≡ first
  pub last_is : e.miss_last ≡ last

miss_entry-InRun :
    (e : Entry) (name : Text) (at first last t : ℕ)
    → InRun e name at first last
    → t ≤ last + miss_reset
    → InRun (miss_entry e t) name at first t
unfolding miss_entry
miss_entry-InRun e name at first last t r le =
    let a = r.name_is in
    let b = r.at_is in
    let c = r.some_misses in
    let d = r.first_is in
    let f = r.last_is in
    record {
      name_is = ground arith;
      at_is = ground arith;
      some_misses = ground arith;
      first_is = ground arith;
      last_is = ground arith;
    }

lookup-miss :
    (s : Bindings) (key name : Text) (e : Entry) (now : ℕ)
    → key ≢ []
    → lookup key s.entries ≡ some e
    → e.name ≡ name
    → now ≤ e.at + sticky_ttl
    → lookup key (miss s key name now).0.entries ≡ some (miss_entry e now)
unfolding miss
lookup-miss s key name e now nk at same le = ground (
  arith,
  lookup-insert key key (miss_entry e now) s.entries,
  text_beq_iff key key,
  text_beq_iff key [],
  text_beq_iff e.name name,
)

run_moves :
    (s : Bindings) (key name : Text) (at first last : ℕ) (ts : List ℕ) (u : ℕ)
    → key ≢ []
    → (e : Entry) → lookup key s.entries ≡ some e
    → InRun e name at first last
    → Steady last ts u
    → u ≤ at + sticky_ttl
    → (miss (misses s key name ts) key name u).1 ≡ leb (first + move_after) u
unfolding miss miss_entry
run_moves s key name at first last [] u nk e is_e r st le =
    let a = r.name_is in
    let b = r.at_is in
    let c = r.some_misses in
    let d = r.first_is in
    let f = r.last_is in ground (arith, text_beq_iff key [], text_beq_iff e.name name)
run_moves s key name at first last (t ∷ ts) u nk e is_e r st le =
    let short : t ≤ e.at + sticky_ttl = ground (arith, Steady-le t ts u st.1.1, r.at_is) in
    run_moves (miss s key name t).0 key name at first t ts u nk (miss_entry e t)
      (lookup-miss s key name e t nk is_e r.name_is short)
      (miss_entry-InRun e name at first last t r st.1.0) st.1.1 le

-- What the write leaves for its own key.
lookup-set :
    (s : Bindings) (key name : Text) (now : ℕ)
    → IsMap s.entries
    → key ≢ []
    → name ≢ []
    → lookup key (set s key name now).entries
      ≡ some (record { name = name; at = now; misses = 0; miss_first = 0; miss_last = 0 })
unfolding set sweep
lookup-set s key name now m nk nn =
    let e : Entry = record { name = name; at = now; misses = 0; miss_first = 0; miss_last = 0 } in
    ground (
      arith,
      lookup-insert key key e s.entries,
      lookup-prune (gone now) key (insert key e s.entries) (insert-IsMap key e s.entries m),
      text_beq_iff key key,
      text_beq_iff key [],
      text_beq_iff name [],
    )

-- On a map that holds a key once: after an upstream with a name was recorded for a destination with
-- a name, its first miss, at `t`, does not move the binding. After any number of further misses,
-- each at most a minute after the one before it, the next one moves the binding exactly if fifteen
-- seconds have passed since `t`: however many misses a burst has, it moves nothing. All is within
-- the bindings' lifetime.
pub miss-set :
    (s : Bindings) (key name : Text) (at t : ℕ) (ts : List ℕ) (u : ℕ)
    → IsMap s.entries
    → key ≢ []
    → name ≢ []
    → at ≤ t
    → Steady t ts u
    → u ≤ at + sticky_ttl
    → ((miss (set s key name at) key name t).1 ≡ false)
      × ((miss (misses (set s key name at) key name (t ∷ ts)) key name u).1
          ≡ leb (t + move_after) u)
unfolding miss miss_entry
miss-set s key name at t ts u m nk nn le st life =
    let w = set s key name at in
    let e : Entry = record { name = name; at = at; misses = 0; miss_first = 0; miss_last = 0 } in
    let found = lookup-set s key name at m nk nn in
    let short : t ≤ at + sticky_ttl = ground (arith, Steady-le t ts u st) in
    (
      ground arith,
      run_moves (miss w key name t).0 key name at t t ts u nk (miss_entry e t)
          (lookup-miss w key name e t nk found refl short)
          (record {
            name_is = refl;
            at_is = refl;
            some_misses = ground arith;
            first_is = ground arith;
            last_is = refl;
          })
          st life,
    )

-- A miss that comes more than a minute after the last one starts a new run: it moves nothing.
pub miss_quiet :
    (s : Bindings) (key name : Text) (e : Entry) (now : ℕ)
    → lookup key s.entries ≡ some e
    → e.miss_last + miss_reset < now
    → (miss s key name now).1 ≡ false
unfolding miss miss_entry
miss_quiet s key name e now is_e quiet = ground arith
