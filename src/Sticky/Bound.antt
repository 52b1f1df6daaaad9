-- ===== src/Sticky/Bound.antt =====
-- Get after Set, Miss and Drop, for every destination and every later time.
use em_wall.Prelude.{
  ℕ, ◌+◌, ◌≤◌, ◌≡◌, ◌≢◌, ◌&&◌, [], ◌==◌, Text, text_eq, text_beq_iff, ltb, if◌then◌else◌, lookup,
  insert, lookup-insert, lookup-delete, lookup-prune, IsMap, insert-IsMap, arith, Option-cases, inl,
  inr,
}
use em_wall.Sticky.{sticky_ttl, Entry, Bindings, gone, get, sweep, set, miss_entry, miss, drop}

get-sweep :
    (s : Bindings) (j : Text) (now t : ℕ)
    → IsMap s.entries
    → now ≤ t
    → get (sweep s now) j t ≡ get s j t
unfolding get sweep
get-sweep s j now t m le = elim (Option-cases (lookup j s.entries)) [
  | inl none_ ↦ ground (arith, lookup-prune (gone now) j s.entries m)
  | inr (e, is_e) ↦ ground (arith, lookup-prune (gone now) j s.entries m)
]

-- After an upstream with a name was recorded for a destination with a name, a map that held a key
-- once returns it for that destination at every later time up to the bindings' lifetime, nothing
-- after that, and for every other destination what it returned before, although the write also
-- sweeps the map.
pub get-set :
    (s : Bindings) (key name j : Text) (now t : ℕ)
    → IsMap s.entries
    → key ≢ []
    → name ≢ []
    → now ≤ t
    → get (set s key name now) j t
      ≡ (if key == j then (if ltb (now + sticky_ttl) t then [] else name) else get s j t)
unfolding set get
get-set s key name j now t m nk nn le =
    let e : Entry = record { name = name; at = now; misses = 0; miss_first = 0; miss_last = 0 } in
    let w : Bindings = record s { entries = insert key e s.entries } in
    ground (
      arith,
      get-sweep w j now t (insert-IsMap key e s.entries m) le,
      lookup-insert key j e s.entries,
      text_beq_iff key [],
      text_beq_iff name [],
      text_beq_iff key j,
      text_beq_iff j [],
    )

-- A miss moves nothing by itself: at every time every destination keeps the upstream it had.
pub get-miss :
    (s : Bindings) (key name j : Text) (now t : ℕ) → get (miss s key name now).0 j t ≡ get s j t
unfolding miss get miss_entry
get-miss s key name j now t = elim (Option-cases (lookup key s.entries)) [
  | inl none_ ↦ ground arith
  | inr (e, is_e) ↦
      ground (arith, lookup-insert key j (miss_entry e now) s.entries, text_beq_iff key j)
]

-- A binding is dropped for the destination alone, and only if it names the upstream that was found
-- wanting: every other answer, of this destination or another, stays as it was.
pub get-drop :
    (s : Bindings) (key name j : Text) (t : ℕ)
    → get (drop s key name) j t ≡ (if (key == j) && (get s j t == name) then [] else get s j t)
unfolding drop get
get-drop s key name j t = elim (Option-cases (lookup key s.entries)) [
  | inl none_ ↦ ground (arith, text_beq_iff key j, text_beq_iff [] name)
  | inr (e, is_e) ↦ ground (
    arith,
    lookup-delete key j s.entries,
    text_beq_iff key j,
    text_beq_iff e.name name,
    text_beq_iff [] name,
    text_beq_iff j [],
  )
]
