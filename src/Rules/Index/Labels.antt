-- ===== src/Rules/Index/Labels.antt =====
-- How many labels a name has, and how the specificity of a rule counts them.
use em_wall.Prelude.{
  ℕ, ◌+◌, ◌*◌, ◌<◌, ◌≡◌, refl, true, false, List, [], ◌∷◌, Text, ◌==◌, nat_eq, text_eq, length,
  drop, if◌then◌else◌, arith,
}
use em_wall.Text.{split, cons_head, has_prefix}
use em_wall.Rules.{Rule, normalize, specificity, wildcard, dot}
use em_wall.Rules.Ranking.{rank}

pub labels : Text → ℕ
unfolding split
labels t = length (split t dot)

length-cons_head : (c : ℕ) (ws : List Text) → 0 < length ws → length (cons_head c ws) ≡ length ws
length-cons_head c [] h = elim h [ ]
length-cons_head c (w ∷ ws) h = refl

pub labels_pos : (t : Text) → 0 < labels t
unfolding labels
labels_pos [] = omega arith
labels_pos (c ∷ s) = ground (arith, labels_pos s, length-cons_head c (split s dot))

pub labels-cons :
    (c : ℕ) (s : Text) → labels (c ∷ s) ≡ (if c == dot then labels s + 1 else labels s)
unfolding labels
labels-cons c s = ground (arith, labels_pos s, length-cons_head c (split s dot))

pub rank-exact :
    (r : Rule)
    → (normalize r.pattern == []) ≡ false
    → has_prefix (normalize r.pattern) wildcard ≡ false
    → rank r ≡ labels (normalize r.pattern) * 2 + 1
unfolding specificity labels
rank-exact r h k = rw (h, k)

pub rank-wild :
    (r : Rule)
    → (normalize r.pattern == []) ≡ false
    → has_prefix (normalize r.pattern) wildcard ≡ true
    → rank r ≡ labels (drop 2 (normalize r.pattern)) * 2
unfolding specificity labels
rank-wild r h k = rw (h, k)
