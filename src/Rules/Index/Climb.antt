-- ===== src/Rules/Index/Climb.antt =====
-- Climbing from a name to its parents finds the wildcard of the highest rank.
use em_wall.Prelude.{
  ℕ, ◌+◌, ◌*◌, ◌≤◌, ◌≡◌, Bool, true, false, ◌&&◌, ◌||◌, Option, none, some, List, [], ◌∷◌, Text,
  ◌==◌, nat_eq, text_eq, text_beq, text_beq_iff, if◌then◌else◌, arith, Option-cases, inl, inr, ltb,
  lookup, lookup-insert,
}
use em_wall.Text.{has_suffix}
use em_wall.Rules.{Rule, dot}
use em_wall.Rules.Index.{keep_older, climb}
use em_wall.Rules.Index.Labels.{labels, labels-cons}
use em_wall.Rules.Ranking.{rank, pick}

abbrev pub pick_older : Option Rule → Rule → Option Rule
pick_older none r = some r
pick_older (some q) r = if ltb r.id q.id then some r else some q

pub lookup-keep_older :
    (k j : Text) (r : Rule) (m : List (Text × Rule))
    → lookup j (keep_older k r m) ≡ (if k == j then pick_older (lookup j m) r else lookup j m)
unfolding keep_older
lookup-keep_older k j r m = ground (arith, lookup-insert k j r m, text_beq_iff k j)

-- The names at which `climb` looks.
pub chain : Bool → Text → Text → Bool
chain at_label [] t = at_label && [] == t
chain at_label (c ∷ s) t = (at_label && (c ∷ s) == t) || chain (c == dot) s t

pub chain_lem : (b : Bool) (s t : Text) → (b && s == t || has_suffix s (dot ∷ t)) ≡ chain b s t
unfolding chain has_suffix text_beq
chain_lem b [] t = ground arith
chain_lem b (c ∷ s) t = ground (arith, chain_lem (c == dot) s t)

abbrev pub below : Bool → ℕ
below true = 0
below false = 2

pub chain_bound :
    (b : Bool) (s t : Text) → chain b s t ≡ true → labels t * 2 + below b ≤ labels s * 2
unfolding chain
chain_bound b [] t h = ground (arith, text_beq_iff [] t)
chain_bound b (c ∷ s) t h =
    ground (arith, text_beq_iff (c ∷ s) t, chain_bound (c == dot) s t, labels-cons c s)

abbrev pub IsRanked : (Text → ℕ) → List (Text × Rule) → Type 0
IsRanked f m = (k : Text) (q : Rule) → lookup k m ≡ some q → rank q ≡ f k

pub climb_bound :
    (m : List (Text × Rule)) (b : Bool) (s : Text) (q : Rule)
    → IsRanked (λ k. labels k * 2) m
    → climb m b s ≡ some q
    → rank q + below b ≤ labels s * 2
unfolding climb
climb_bound m b [] q w h = ground (arith, w [] q)
climb_bound m b (c ∷ s) q w h =
    ground (arith, w (c ∷ s) q, climb_bound m (c == dot) s q w, labels-cons c s)

-- Adding the rule at the name `t` is one comparison with what the climb found before.
pub climb-keep_older :
    (m : List (Text × Rule)) (r : Rule) (t : Text) (b : Bool) (s : Text)
    → IsRanked (λ k. labels k * 2) m
    → rank r ≡ labels t * 2
    → climb (keep_older t r m) b s ≡ (if chain b s t then pick (climb m b s) r else climb m b s)
unfolding climb chain
climb-keep_older m r t b [] w e = elim (Option-cases (lookup [] m)) [
  | inl p ↦ ground (arith, lookup-keep_older t [] r m, text_beq_iff [] t, text_beq_iff t [])
  | inr (q, p) ↦
      ground (arith, lookup-keep_older t [] r m, w [] q, text_beq_iff [] t, text_beq_iff t [])
]
climb-keep_older m r t b (c ∷ s) w e =
    let ih = climb-keep_older m r t (c == dot) s w e in
    let at_key = lookup-keep_older t (c ∷ s) r m in
    let left = text_beq_iff t (c ∷ s) in
    let right = text_beq_iff (c ∷ s) t in
    let deeper = chain_bound (c == dot) s t in
    let count = labels-cons c s in
    elim (Option-cases (climb m (c == dot) s)) [
      | inl p ↦ elim (Option-cases (lookup (c ∷ s) m)) [
        | inl l ↦ ground arith
        | inr (z, l) ↦ ground (arith, w (c ∷ s) z)
      ]
      | inr (q, p) ↦ elim (Option-cases (lookup (c ∷ s) m)) [
        | inl l ↦ ground (arith, climb_bound m (c == dot) s q w)
        | inr (z, l) ↦ ground (arith, w (c ∷ s) z)
      ]
    ]
