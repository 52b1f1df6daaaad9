-- ===== src/Rules/Ranking.antt =====
-- The comparison that both scans make, on the best rule alone.
use em_wall.Prelude.{
  ℕ, ◌+◌, ◌≡◌, ◌&&◌, ◌||◌, Option, none, some, ◌==◌, nat_eq, ltb, arith, if◌then◌else◌,
}
use em_wall.Rules.{Rule, Best, no_best, specificity, consider}

-- The rank of a rule among those that match one name.
abbrev pub rank : Rule → ℕ
rank r = specificity r.pattern

-- The best of two rules that match one name: the one found first, unless the next has the higher
-- rank, or the same rank and the lower ID.
abbrev pub pick : Option Rule → Rule → Option Rule
pick none r = some r
pick (some q) r =
    if ltb (rank q) (rank r) || (rank r == rank q && ltb r.id q.id) then some r else some q

-- The variables of a scan that has `o` for its best rule.
abbrev pub best_of : Option Rule → Best
best_of none = no_best
best_of (some q) = record { best = some q; bound = rank q + 1 }

pub consider-best_of :
    (o : Option Rule) (r : Rule) → consider (best_of o) r (rank r) ≡ best_of (pick o r)
unfolding consider
consider-best_of none r = ground arith
consider-best_of (some q) r = ground arith
