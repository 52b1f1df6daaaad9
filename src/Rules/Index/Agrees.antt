-- ===== src/Rules/Index/Agrees.antt =====
-- The index answers as the scans do.
use em_wall.Prelude.{
  ℕ, ◌+◌, ◌*◌, ◌≡◌, ◌≢◌, refl, Bool, true, false, not, Option, none, List, [], ◌∷◌, Text, ◌==◌,
  nat_eq, text_eq, text_beq_iff, if◌then◌else◌, arith, Bool-cases, Option-cases, inl, inr, lookup,
  drop, All, ap, ◌∙◌, sym,
}
use em_wall.Text.{has_prefix}
use em_wall.Net.{Parsers}
use em_wall.Rules
use em_wall.Rules.{
  Rule, Best, no_best, normalize, match, specificity, is_ip_rule, parse_cidr, consider, wildcard,
  dot, scan_step, scan,
}
use em_wall.Rules.Ranking.{rank, pick, best_of, consider-best_of}
use em_wall.Rules.Index
use em_wall.Rules.Index.{
  Index, empty, keep_older, climb, find_name, add_name, add, add_all, new_index,
}
use em_wall.Rules.Index.Labels.{labels, rank-exact, rank-wild}
use em_wall.Rules.Index.Climb.{
  lookup-keep_older, chain_lem, chain_bound, climb_bound, climb-keep_older, IsRanked,
}

record IsSound (ix : Index) : Type 0 where
  exact : IsRanked (λ k. labels k * 2 + 1) ix.exact
  wild : IsRanked (λ k. labels k * 2) ix.wild

keep_older-IsRanked :
    (f : Text → ℕ) (k : Text) (r : Rule) (m : List (Text × Rule))
    → IsRanked f m
    → rank r ≡ f k
    → IsRanked f (keep_older k r m)
keep_older-IsRanked f k r m w e j q h =
    let at_key = lookup-keep_older k j r m in
    let same = text_beq_iff k j in
    elim (Option-cases (lookup j m)) [ inl p ↦ ground arith | inr (z, p) ↦ ground (arith, w j z) ]

empty-IsSound : IsSound empty
unfolding lookup
empty-IsSound = record { exact = λ k q h. cc; wild = λ k q h. cc }

climb-empty : (at_label : Bool) (s : Text) → climb [] at_label s ≡ none
unfolding climb lookup
climb-empty at_label [] = ground arith
climb-empty at_label (c ∷ s) = ground (arith, climb-empty (c == dot) s)

find_name-empty : (n : Text) → find_name empty n ≡ none
unfolding find_name
find_name-empty n = climb-empty true n

-- The empty name matches no pattern.
nameless :
    (net : Parsers) (name : Text)
    → (normalize name == []) ≡ true
    → (b : Best) (rs : List Rule) → (scan net name b rs).best ≡ b.best
unfolding scan scan_step match
nameless net name h b [] = refl
nameless net name h b (r ∷ rs) =
    let unchanged : scan_step net name b r ≡ b = ground arith in
    nameless net name h (scan_step net name b r) rs ∙ ap (λ b. b.best) unchanged

-- A pattern that is a star, a dot and nothing more stands for no name.
abbrev pub IsNamed : Rule → Type 0
IsNamed r = normalize r.pattern ≢ wildcard

wildcard_body : (p : Text) → has_prefix p wildcard ≡ true → drop 2 p ≡ [] → p ≡ wildcard
unfolding has_prefix
wildcard_body [] h e = ground arith
wildcard_body (a ∷ []) h e = ground arith
wildcard_body (a ∷ b ∷ []) h e = ground arith
wildcard_body (a ∷ b ∷ c ∷ s) h e = cc

module _ (name : Text) (r : Rule) (nonempty : (normalize name == []) ≡ false) where
  abbrev pub step_name : Option Rule → Option Rule
  step_name o = if match r.pattern name then pick o r else o

  find_name-exact :
      (ix : Index)
      → IsSound ix
      → (normalize r.pattern == []) ≡ false
      → has_prefix (normalize r.pattern) wildcard ≡ false
      → find_name
          (record ix { exact = keep_older (normalize r.pattern) r ix.exact })
          (normalize name)
        ≡ step_name (find_name ix (normalize name))
  unfolding find_name match
  find_name-exact ix s h k =
      let score = rank-exact r h k in
      let at_key = lookup-keep_older (normalize r.pattern) (normalize name) r ix.exact in
      let same = text_beq_iff (normalize r.pattern) (normalize name) in
      elim (Option-cases (lookup (normalize name) ix.exact)) [
        | inl p ↦ elim (Option-cases (climb ix.wild true (normalize name))) [
          | inl l ↦ ground arith
          | inr (z, l) ↦ ground (arith, climb_bound ix.wild true (normalize name) z s.wild)
        ]
        | inr (z, p) ↦ ground (arith, s.exact (normalize name) z)
      ]

  find_name-wild :
      (ix : Index)
      → IsSound ix
      → (normalize r.pattern == []) ≡ false
      → has_prefix (normalize r.pattern) wildcard ≡ true
      → find_name
          (record ix { wild = keep_older (drop 2 (normalize r.pattern)) r ix.wild })
          (normalize name)
        ≡ step_name (find_name ix (normalize name))
  unfolding find_name match
  find_name-wild ix s h k =
      let t = drop 2 (normalize r.pattern) in
      let score = rank-wild r h k in
      let climbed = climb-keep_older ix.wild r t true (normalize name) s.wild score in
      let reached = chain_lem true (normalize name) t in
      let deeper = chain_bound true (normalize name) t in
      elim (Option-cases (lookup (normalize name) ix.exact)) [
        | inl p ↦ ground arith
        | inr (z, p) ↦ ground (arith, s.exact (normalize name) z)
      ]

  find_name-add_name :
      (ix : Index)
      → IsSound ix
      → IsNamed r
      → IsSound (add_name ix r)
        × (find_name (add_name ix r) (normalize name) ≡ step_name (find_name ix (normalize name)))
  unfolding add_name
  find_name-add_name ix s named = elim (Bool-cases (normalize r.pattern == [])) [
    | inl h ↦ rw h (s, unfold match in rw h)
    | inr h ↦ elim (Bool-cases (has_prefix (normalize r.pattern) wildcard)) [
      | inl k ↦ elim (Bool-cases (drop 2 (normalize r.pattern) == [])) [
        | inl e ↦
            absurd
              (named (wildcard_body _ k ((text_beq_iff (drop 2 (normalize r.pattern)) []).0 e)))
        | inr e ↦
            rw (h, k, e)
              (
                record {
                  exact = s.exact;
                  wild = keep_older-IsRanked _ _ r ix.wild s.wild (rank-wild r h k);
                },
                find_name-wild ix s h k,
              )
      ]
      | inr k ↦
          rw (h, k)
            (
              record {
                exact = keep_older-IsRanked _ _ r ix.exact s.exact (rank-exact r h k);
                wild = s.wild;
              },
              find_name-exact ix s h k,
            )
    ]
  ]

module _ (net : Parsers) (name : Text) (nonempty : (normalize name == []) ≡ false) where
  abbrev step : Option Rule → Rule → Option Rule
  step o r =
      if not r.enabled
      then o
      else if is_ip_rule net r.pattern
      then o
      else step_name name r nonempty o

  scan_step-best_of :
      (o : Option Rule) (r : Rule) → scan_step net name (best_of o) r ≡ best_of (step o r)
  unfolding scan_step
  scan_step-best_of o r = ground (arith, consider-best_of o r)

  find_name-add :
      (ix : Index) (r : Rule)
      → IsSound ix
      → IsNamed r
      → IsSound (add net ix r)
        × (find_name (add net ix r) (normalize name) ≡ step (find_name ix (normalize name)) r)
  unfolding add is_ip_rule
  find_name-add ix r s named = elim (Bool-cases r.enabled) [
    | inr off ↦ simp off (s, refl)
    | inl live ↦ elim (Option-cases (parse_cidr net r.pattern)) [
      | inr (n, p) ↦
          simp (live, p, is_ip_rule)
            (record { exact = s.exact; wild = s.wild }, unfold find_name in refl)
      | inl p ↦ simp (live, p, is_ip_rule) (find_name-add_name name r nonempty ix s named)
    ]
  ]

  agrees :
      (ix : Index) (rs : List Rule)
      → IsSound ix
      → All IsNamed rs
      → find_name (add_all net ix rs) (normalize name)
        ≡ (scan net name (best_of (find_name ix (normalize name))) rs).best
  unfolding add_all scan
  agrees ix [] s named = elim (Option-cases (find_name ix (normalize name))) [
    | inl p ↦ rw p
    | inr (q, p) ↦ rw p
  ]
  agrees ix (r ∷ rs) s named =
      let (s', e) = find_name-add ix r s named.0 in
      agrees (add net ix r) rs s' named.1
      ∙ ap (λ b. (scan net name b rs).best)
          (ap best_of e ∙ sym (scan_step-best_of (find_name ix (normalize name)) r))

-- An index built from rules whose patterns stand for some name gives, for every name, the rule
-- that the scan of the whole rule list gives.
pub most_specific-new_index :
    (net : Parsers) (rs : List Rule) (name : Text)
    → All IsNamed rs
    → Index.most_specific (new_index net rs) name ≡ Rules.most_specific net rs name
unfolding Index.most_specific new_index Rules.most_specific
most_specific-new_index net rs name named = elim (Bool-cases (normalize name == [])) [
  | inl h ↦ rw h (sym (nameless net name h no_best rs))
  | inr h ↦ rw h (rw find_name-empty at (agrees net name h empty rs empty-IsSound named))
]
