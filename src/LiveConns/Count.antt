-- ===== src/LiveConns/Count.antt =====
-- The counter of stale connections, and the sweep that it lets skip its loop.
use em_wall.Prelude.{
  ℕ, ◌+◌, ◌-◌, ◌≤◌, ◌≡◌, ◌∙◌, refl, sym, ap, subst, true, false, Option, none, some, List, [], ◌∷◌,
  Text, ◌==◌, nat_eq, text_eq, if◌then◌else◌, lookup, insert, delete, IsMap, insert-IsMap,
  delete-IsMap, lookup-insert, lookup-delete, arith, Bool-cases, Option-cases, inl, inr,
}
use em_wall.LiveConns.{
  Tracked, LiveConns, opened_conn, track, update, untrack, is_hit, mark_loop, mark_stale, is_victim,
  sweep_loop, sweep,
}

abbrev pub one : Tracked → ℕ
one t = if t.stale then 1 else 0

-- How many of the registered connections are stale.
unfoldable pub stale_count : List (ℕ × Tracked) → ℕ
stale_count [] = 0
stale_count ((id, t) ∷ conns) = one t + stale_count conns

abbrev at_key : Option Tracked → ℕ
at_key none = 0
at_key (some t) = one t

-- The counter is that number, and every connection is registered once.
pub record IsCounted (l : LiveConns) : Type 0 where
  pub counted : l.stale ≡ stale_count l.conns
  pub keys : IsMap l.conns
  -- numbers that are not given out yet
  pub unused : (id : ℕ) → l.fresh ≤ id → lookup id l.conns ≡ none

stale_count-delete :
    (id : ℕ) (conns : List (ℕ × Tracked))
    → IsMap conns
    → stale_count (delete id conns) + at_key (lookup id conns) ≡ stale_count conns
unfolding stale_count delete lookup
stale_count-delete id [] u = refl
stale_count-delete id ((k, t) ∷ conns) u =
    let ih = stale_count-delete id conns u.1 in
    elim (Bool-cases (k == id)) [
      | inl same ↦
          let gone : lookup id conns ≡ none =
            subst (λ j. lookup j conns ≡ none) (ground arith) u.0 in
          let none_left : at_key (lookup id conns) ≡ 0 = ap at_key gone in
          rw same (omega (arith, ih, none_left))
      | inr other ↦ rw other (omega (arith, ih))
    ]

stale_count-insert :
    (id : ℕ) (t : Tracked) (conns : List (ℕ × Tracked))
    → IsMap conns
    → stale_count (insert id t conns) + at_key (lookup id conns) ≡ one t + stale_count conns
unfolding stale_count insert
stale_count-insert id t conns u = omega (arith, stale_count-delete id conns u)

number_eq : (a b : ℕ) → (a == b) ≡ true → a ≡ b
number_eq a b h = ground arith

-- A change of a connection that leaves its mark.
pub update-IsCounted :
    (f : Tracked → Tracked) (l : LiveConns) (id : ℕ)
    → ((t : Tracked) → (f t).stale ≡ t.stale)
    → IsCounted l
    → IsCounted (update f l id)
unfolding update
update-IsCounted f l id keeps v = elim (Option-cases (lookup id l.conns)) [
  | inl e ↦
      let same : update f l id ≡ l = unfold update in ground arith in subst IsCounted (sym same) v
  | inr (t, e) ↦
      let new : LiveConns = record l { conns = insert id (f t) l.conns } in
      let same : update f l id ≡ new = unfold update in ground arith in
      let before : at_key (lookup id l.conns) ≡ one t = ap at_key e in
      let after : one (f t) ≡ one t = ap (λ b. if b then 1 else 0) (keeps t) in
      let counts = stale_count-insert id (f t) l.conns v.keys in
      subst IsCounted (sym same) (record {
        counted = omega (arith, v.counted, counts, before, after);
        keys = insert-IsMap id (f t) l.conns v.keys;
        unused = λ k h.
            let kept = lookup-insert id k (f t) l.conns in
            let free = v.unused k h in
            let apart : (id == k) ≡ false = elim (Bool-cases (id == k)) [
              | inr q ↦ q
              | inl q ↦ absurd (cc (e, free, ap (λ j. lookup j l.conns) (number_eq id k q)))
            ] in
            kept ∙ rw apart free;
      })
]

pub track-IsCounted :
    (l : LiveConns) (name : Text) (sent now : ℕ) → IsCounted l → IsCounted (track l name sent now)
unfolding track
track-IsCounted l name sent now v =
    let t = opened_conn name sent now in
    let none_there : at_key (lookup l.fresh l.conns) ≡ 0 =
      ap at_key (v.unused l.fresh (omega arith)) in
    let counts = stale_count-insert l.fresh t l.conns v.keys in
    record {
      counted = omega (arith, v.counted, counts, none_there);
      keys = insert-IsMap l.fresh t l.conns v.keys;
      unused = λ k h.
          let kept = lookup-insert l.fresh k t l.conns in
          let free = v.unused k (omega (arith, h)) in ground (arith, h, kept, free);
    }

pub untrack-IsCounted : (l : LiveConns) (id : ℕ) → IsCounted l → IsCounted (untrack l id)
unfolding untrack
untrack-IsCounted l id v = elim (Option-cases (lookup id l.conns)) [
  | inl e ↦
      let same : untrack l id ≡ l = unfold untrack in ground arith in subst IsCounted (sym same) v
  | inr (t, e) ↦
      let new : LiveConns = record l {
        conns = delete id l.conns;
        stale = if t.stale then l.stale - 1 else l.stale;
      } in
      let same : untrack l id ≡ new = unfold untrack in ground arith in
      let mine : at_key (lookup id l.conns) ≡ one t = ap at_key e in
      let left = stale_count-delete id l.conns v.keys in
      let counts = v.counted in
      subst IsCounted (sym same) (record {
        counted = ground arith;
        keys = delete-IsMap id l.conns v.keys;
        unused = λ k h.
            let kept = lookup-delete id k l.conns in
            let free = v.unused k h in ground (arith, kept, free);
      })
]

lookup-mark_loop :
    (names : List Text) (id : ℕ) (conns : List (ℕ × Tracked))
    → lookup id conns ≡ none
    → lookup id (mark_loop names conns).0 ≡ none
unfolding lookup mark_loop
lookup-mark_loop names id [] e = refl
lookup-mark_loop names id ((k, t) ∷ conns) e =
    let ih = lookup-mark_loop names id conns in ground arith

mark_loop-counted :
    (names : List Text) (conns : List (ℕ × Tracked))
    → IsMap conns
    → (stale_count (mark_loop names conns).0 ≡ stale_count conns + (mark_loop names conns).1)
      × IsMap (mark_loop names conns).0
unfolding mark_loop stale_count
mark_loop-counted names [] u = (refl, tt)
mark_loop-counted names ((id, t) ∷ conns) u =
    let (ih, keys) = mark_loop-counted names conns u.1 in
    let free = lookup-mark_loop names id conns u.0 in
    elim (Bool-cases (is_hit names t)) [
      | inl hit ↦
          let plain : t.stale ≡ false = ground (arith, hit) in
          rw hit (ground (arith, ih, plain), (free, keys))
      | inr miss ↦ rw miss (omega (arith, ih), (free, keys))
    ]

pub mark_stale-IsCounted :
    (l : LiveConns) (names : List Text) → IsCounted l → IsCounted (mark_stale l names).0
unfolding mark_stale
mark_stale-IsCounted l [] v = v
mark_stale-IsCounted l (x ∷ xs) v =
    let (counts, keys) = mark_loop-counted (x ∷ xs) l.conns v.keys in
    record {
      counted = omega (arith, v.counted, counts);
      keys = keys;
      unused = λ k h. lookup-mark_loop (x ∷ xs) k l.conns (v.unused k h);
    }

lookup-sweep_loop :
    (now id : ℕ) (conns : List (ℕ × Tracked))
    → lookup id conns ≡ none
    → lookup id (sweep_loop now conns).0 ≡ none
unfolding lookup sweep_loop
lookup-sweep_loop now id [] e = refl
lookup-sweep_loop now id ((k, t) ∷ conns) e =
    let ih = lookup-sweep_loop now id conns in ground arith

sweep_loop-counted :
    (now : ℕ) (conns : List (ℕ × Tracked))
    → IsMap conns
    → (stale_count (sweep_loop now conns).0 ≡ stale_count conns) × IsMap (sweep_loop now conns).0
unfolding sweep_loop stale_count
sweep_loop-counted now [] u = (refl, tt)
sweep_loop-counted now ((id, t) ∷ conns) u =
    let (ih, keys) = sweep_loop-counted now conns u.1 in
    let free = lookup-sweep_loop now id conns u.0 in
    elim (Bool-cases (is_victim now t)) [
      | inl hit ↦ rw hit (omega (arith, ih), (free, keys))
      | inr miss ↦ rw miss (omega (arith, ih), (free, keys))
    ]

pub sweep-IsCounted : (l : LiveConns) (now : ℕ) → IsCounted l → IsCounted (sweep l now).0
unfolding sweep
sweep-IsCounted l now v =
    let (counts, keys) = sweep_loop-counted now l.conns v.keys in
    elim (Bool-cases (l.stale == 0)) [
      | inl idle ↦ rw idle v
      | inr busy ↦ rw busy (record {
        counted = omega (arith, v.counted, counts);
        keys = keys;
        unused = λ k h. lookup-sweep_loop now k l.conns (v.unused k h);
      })
    ]
