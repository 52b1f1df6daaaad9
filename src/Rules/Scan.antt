-- ===== src/Rules/Scan.antt =====
-- What the linear scans of core/rules/rules.go promise.
use mathlib.Core.Option
use mathlib.Core.List.{Memᴰ}
use em_wall.Prelude.{
  ◌≤◌, ◌<◌, ◌≡◌, ◌≢◌, refl, sym, ap, ◌∙◌, ◌⊎◌, inl, inr, Bool, true, false, not, ◌&&◌, Option, none,
  some, List, [], ◌∷◌, Text, map, arith, if◌then◌else◌, All, Bool-cases,
}
use em_wall.Net.{Parsers}
use em_wall.Rules.{Rule, match, is_ip_rule, scan_step, scan, most_specific}
use em_wall.Rules.Ranking.{rank, pick, best_of, consider-best_of}

-- `q` is a better answer than `r`, or as good.
abbrev pub Outranks : Rule → Rule → Type 0
Outranks q r = (rank r < rank q) ⊎ ((rank r ≡ rank q) × (q.id ≤ r.id))

module _ (net : Parsers) (name : Text) where
  abbrev pub candidate : Rule → Bool
  candidate r = r.enabled && not (is_ip_rule net r.pattern) && match r.pattern name

  abbrev next : Option Rule → Rule → Option Rule
  next o r = if candidate r then pick o r else o

  after : Option Rule → List Rule → Option Rule
  after o [] = o
  after o (r ∷ rs) = after (next o r) rs

  scan_step-best_of :
      (o : Option Rule) (r : Rule) → scan_step net name (best_of o) r ≡ best_of (next o r)
  unfolding scan_step
  scan_step-best_of o r = ground (arith, consider-best_of o r)

  scan-after :
      (o : Option Rule) (rs : List Rule) → scan net name (best_of o) rs ≡ best_of (after o rs)
  unfolding scan after
  scan-after o [] = refl
  scan-after o (r ∷ rs) =
      ap (λ b. scan net name b rs) (scan_step-best_of o r) ∙ scan-after (next o r) rs

  abbrev Covers : Option Rule → Rule → Type 0
  Covers o z = (o ≢ none) × ((q : Rule) → o ≡ some q → Outranks q z)

  next-Covers : (o : Option Rule) (r z : Rule) → Covers o z → Covers (next o r) z
  next-Covers none r z h = absurd (h.0 refl)
  next-Covers (some q) r z h = let known = h.1 q refl in (λ e. ground arith, λ q' e. ground arith)

  next-Covers_self : (o : Option Rule) (r : Rule) → candidate r ≡ true → Covers (next o r) r
  next-Covers_self none r h = (λ e. ground arith, λ q' e. ground arith)
  next-Covers_self (some q) r h = (λ e. ground arith, λ q' e. ground arith)

  after-Covers : (o : Option Rule) (rs : List Rule) (z : Rule) → Covers o z → Covers (after o rs) z
  unfolding after
  after-Covers o [] z h = h
  after-Covers o (r ∷ rs) z h = after-Covers (next o r) rs z (next-Covers o r z h)

  after-Covers_every :
      (o : Option Rule) (rs : List Rule) → All (λ r. candidate r ≡ true → Covers (after o rs) r) rs
  unfolding after
  after-Covers_every o [] = tt
  after-Covers_every o (r ∷ rs) =
      (λ h. after-Covers (next o r) rs r (next-Covers_self o r h), after-Covers_every (next o r) rs)

  next-cases :
      (o : Option Rule) (r q : Rule)
      → next o r ≡ some q
      → (o ≡ some q) ⊎ ((r ≡ q) × (candidate q ≡ true))
  next-cases none r q h = ground arith
  next-cases (some z) r q h = ground arith

  after-Memᴰ :
      (o : Option Rule) (rs : List Rule) (q : Rule)
      → after o rs ≡ some q
      → (o ≡ some q) ⊎ (Memᴰ q rs × (candidate q ≡ true))
  unfolding after
  after-Memᴰ o [] q h = inl h
  after-Memᴰ o (r ∷ rs) q h = elim (after-Memᴰ (next o r) rs q h) [
    | inr (m, c) ↦ inr (Memᴰ.tail m, c)
    | inl e ↦ elim (next-cases o r q e) [
      | inl old ↦ inl old
      | inr (new, c) ↦ inr (Memᴰ.head (sym new), c)
    ]
  ]

  -- Whether `q` is the right answer of the scan, or that there is none.
  abbrev pub IsAnswer : List Rule → Option Rule → Type 0
  IsAnswer rs none = All (λ r. candidate r ≡ false) rs
  IsAnswer rs (some q) =
      Memᴰ q rs × (candidate q ≡ true) × All (λ r. candidate r ≡ true → Outranks q r) rs

  All-none :
      (rs : List Rule)
      → All (λ r. candidate r ≡ true → Covers none r) rs
      → All (λ r. candidate r ≡ false) rs
  All-none [] h = tt
  All-none (r ∷ rs) h = (
    elim (Bool-cases (candidate r)) [ inl c ↦ absurd ((h.0 c).0 refl) | inr c ↦ c ],
    All-none rs h.1,
  )

  All-some :
      (q : Rule) (rs : List Rule)
      → All (λ r. candidate r ≡ true → Covers (some q) r) rs
      → All (λ r. candidate r ≡ true → Outranks q r) rs
  All-some q [] h = tt
  All-some q (r ∷ rs) h = (λ c. (h.0 c).1 q refl, All-some q rs h.1)

  answer : (rs : List Rule) (o : Option Rule) → after none rs ≡ o → IsAnswer rs o
  answer rs none e = All-none rs (rw e at (after-Covers_every none rs))
  answer rs (some q) e = elim (after-Memᴰ none rs q e) [
    | inl p ↦ cc
    | inr (m, c) ↦ (m, c, All-some q rs (rw e at (after-Covers_every none rs)))
  ]

  best-best_of : (o : Option Rule) → (best_of o).best ≡ o
  best-best_of none = refl
  best-best_of (some q) = refl

  -- The scan returns an enabled domain rule of the list that matches the name and is of the highest
  -- specificity, of the lowest ID among those; it returns nothing only if no such rule matches.
  pub most_specific-IsAnswer : (rs : List Rule) → IsAnswer rs (most_specific net rs name)
  unfolding most_specific
  most_specific-IsAnswer rs =
      answer rs (most_specific net rs name)
        (sym (ap (λ b. b.best) (scan-after none rs) ∙ best-best_of (after none rs)))

-- What a scan reads of a rule.
pub record SameKeys (r s : Rule) : Type 0 where
  pub id : r.id ≡ s.id
  pub pattern : r.pattern ≡ s.pattern
  pub enabled : r.enabled ≡ s.enabled

module _ (net : Parsers) (name : Text) (f : Rule → Rule)
    (same : (r : Rule) → SameKeys (f r) r) where
  next-map :
      (o : Option Rule) (r : Rule)
      → next net name (Option.map f o) (f r) ≡ Option.map f (next net name o r)
  next-map none r = ground (arith, (same r).pattern, (same r).enabled)
  next-map (some q) r =
      ground (arith, (same r).id, (same r).pattern, (same r).enabled, (same q).id, (same q).pattern)

  after-map :
      (o : Option Rule) (rs : List Rule)
      → after net name (Option.map f o) (map f rs) ≡ Option.map f (after net name o rs)
  unfolding after
  after-map o [] = refl
  after-map o (r ∷ rs) =
      ap (λ p. after net name p (map f rs)) (next-map o r) ∙ after-map (next net name o r) rs

  most_specific-after : (rs : List Rule) → most_specific net rs name ≡ after net name none rs
  unfolding most_specific
  most_specific-after rs =
      ap (λ b. b.best) (scan-after net name none rs)
      ∙ best-best_of net name (after net name none rs)

  -- A change of the other fields changes the rule found in the same way, and not which it is.
  pub most_specific-map :
      (rs : List Rule)
      → most_specific net (map f rs) name ≡ Option.map f (most_specific net rs name)
  most_specific-map rs =
      most_specific-after (map f rs)
      ∙ after-map none rs
      ∙ ap (Option.map f) (sym (most_specific-after rs))
