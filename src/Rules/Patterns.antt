-- ===== src/Rules/Patterns.antt =====
-- Which names a pattern matches, against a description of matching that does not compute; and
-- what a valid pattern is.
use em_wall.Prelude.{
  ◌≡◌, ◌≢◌, ◌↔◌, inl, inr, refl, ap, true, false, ◌||◌, none, some, [], ◌∷◌, ◌++◌, Text, codes,
  text_eq, text_beq, text_beq_iff, nat_eq, drop, arith, Bool-cases,
}
use em_wall.Text.{has_prefix, has_suffix}
use em_wall.Net.{Parsers}
use em_wall.Rules.{
  normalize, match, match_normal, wildcard, dot, validate, validate_normal, invalid_pattern,
}

has_suffix_sound : (s t : Text) → has_suffix s t ≡ true → (w : Text) × (s ≡ w ++ t)
unfolding has_suffix
has_suffix_sound [] t h = ([], (text_beq_iff [] t).0 h)
has_suffix_sound (c ∷ s) t h = elim (Bool-cases (text_beq (c ∷ s) t)) [
  | inl e ↦ ([], (text_beq_iff (c ∷ s) t).0 e)
  | inr e ↦ let (w, p) = has_suffix_sound s t (rw e at h) in (c ∷ w, ap (λ (u : Text). c ∷ u) p)
]

has_suffix_self : (t : Text) → has_suffix t t ≡ true
unfolding has_suffix
has_suffix_self [] = (text_beq_iff [] []).1 refl
has_suffix_self (c ∷ t) = rw ((text_beq_iff (c ∷ t) (c ∷ t)).1 refl)

has_suffix-append : (w t : Text) → has_suffix (w ++ t) t ≡ true
unfolding has_suffix
has_suffix-append [] t = has_suffix_self t
has_suffix-append (c ∷ w) t = ground (arith, has_suffix-append w t)

has_prefix-wildcard : (p : Text) → has_prefix p wildcard ≡ true → p ≡ wildcard ++ drop 2 p
unfolding has_prefix
has_prefix-wildcard [] h = ground arith
has_prefix-wildcard (a ∷ []) h = ground arith
has_prefix-wildcard (a ∷ b ∷ s) h = ground arith

-- Matching of a normalised pattern and name: by itself, or a wildcard at its own domain or at any
-- name below it.
pub data Matches (p n : Text) : Type 0 where
  itself : has_prefix p wildcard ≡ false → p ≡ n → Matches p n
  apex : (y : Text) → p ≡ wildcard ++ y → n ≡ y → Matches p n
  below : (y w : Text) → p ≡ wildcard ++ y → n ≡ w ++ (dot ∷ y) → Matches p n

wildcard_prefix : (y : Text) → has_prefix (wildcard ++ y) wildcard ≡ true
unfolding has_prefix
wildcard_prefix y = refl

module _ (p n : Text) (p_nonempty : p ≢ []) (n_nonempty : n ≢ []) where
  match_normal_sound : match_normal p n ≡ true → Matches p n
  unfolding match_normal
  match_normal_sound h = elim (Bool-cases (has_prefix p wildcard)) [
    | inr k ↦
        Matches.itself k (ground (arith, text_beq_iff p [], text_beq_iff n [], text_beq_iff p n))
    | inl k ↦ elim (Bool-cases (text_beq n (drop 2 p))) [
      | inl e ↦ Matches.apex (drop 2 p) (has_prefix-wildcard _ k) ((text_beq_iff _ _).0 e)
      | inr e ↦
          let (w, q) =
            has_suffix_sound n (dot ∷ drop 2 p)
              (ground (arith, text_beq_iff p [], text_beq_iff n [])) in
          Matches.below (drop 2 p) w (has_prefix-wildcard _ k) q
    ]
  ]

  by_wildcard :
      (y : Text)
      → p ≡ wildcard ++ y
      → (text_beq n y || has_suffix n (dot ∷ y)) ≡ true
      → match_normal p n ≡ true
  unfolding match_normal
  by_wildcard y e h =
      let k : has_prefix p wildcard ≡ true = rw e (wildcard_prefix y) in
      let d : drop 2 p ≡ y = rw e in ground (arith, text_beq_iff p [], text_beq_iff n [])

  match_normal_complete : Matches p n → match_normal p n ≡ true
  match_normal_complete (Matches.itself k e) =
      unfold match_normal in ground (arith, text_beq_iff p [], text_beq_iff n [], text_beq_iff p n)
  match_normal_complete (Matches.apex y e f) = by_wildcard y e (ground (arith, text_beq_iff n y))
  match_normal_complete (Matches.below y w e f) =
      by_wildcard y e
        (ground (arith, has_suffix-append w (dot ∷ y), ap (λ t. has_suffix t (dot ∷ y)) f))

-- For a pattern and a name that are not empty when normalised, Match says yes exactly when they
-- match by the description above.
pub match-Matches :
    (pattern name : Text)
    → normalize pattern ≢ []
    → normalize name ≢ []
    → (match pattern name ≡ true) ↔ Matches (normalize pattern) (normalize name)
unfolding match
match-Matches pattern name p n = (
  match_normal_sound (normalize pattern) (normalize name) p n,
  match_normal_complete (normalize pattern) (normalize name) p n,
)

validate-wildcard :
    (net : Parsers)
    → net.parse_ip (codes "*") ≡ none
    → net.parse_cidr (codes "*") ≡ none
    → validate_normal net wildcard ≡ some invalid_pattern
unfolding validate_normal
validate-wildcard net a b = ground arith

-- A pattern that Validate accepts names something: it is not a star and a dot alone. The parsers
-- of `net` must refuse a star.
pub validate-IsNamed :
    (net : Parsers) (pattern : Text)
    → net.parse_ip (codes "*") ≡ none
    → net.parse_cidr (codes "*") ≡ none
    → validate net pattern ≡ none
    → normalize pattern ≢ wildcard
unfolding validate
validate-IsNamed net pattern a b h e = cc (validate-wildcard net a b, h, ap (validate_normal net) e)
