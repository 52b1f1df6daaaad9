-- ===== src/Dns/Xray.antt =====
-- translateXrayInterface: what the proxy routing reads from the field that it makes.
use mathlib.Core.List.{reverse, reverse-append, reverse-cons, reverse-reverse}
use em_wall.Prelude.{
  ℕ, ◌≡◌, ◌≢◌, ◌∙◌, refl, sym, ap, subst, true, false, List, [], ◌∷◌, ◌++◌, Text, ◌==◌, nat_eq,
  text_eq, text_beq, All, map, drop, length, arith, Bool-cases, inl, inr,
}
use em_wall.Text.{
  to_lower, lower_byte, is_space, trim_left, trim_space, split, join, cons_head, has_prefix,
}
use em_wall.Outbound.{
  comma, normalize_name, nonempty_parts, parse_interface, internal_proxy_name,
  internal_proxy_prefix, xray_prefix, proxy_prefix,
}
use em_wall.Outbound.Tokens.{Lacks, All-append, All-reverse, split-join}
use em_wall.Dns.{is_xray_interface, translate_xray_interface}

-- A text that is empty, or does not begin with a blank.
abbrev Starts : Text → Type 0
Starts [] = Unit
Starts (c ∷ s) = is_space c ≡ false

trim_left-Starts : (s : Text) → Starts (trim_left s)
unfolding trim_left
trim_left-Starts [] = tt
trim_left-Starts (c ∷ s) = elim (Bool-cases (is_space c)) [
  | inl e ↦ rw e (trim_left-Starts s)
  | inr e ↦ rw e e
]

Starts-trim_left : (s : Text) → Starts s → trim_left s ≡ s
unfolding trim_left
Starts-trim_left [] h = refl
Starts-trim_left (c ∷ s) h = rw h

Starts-append : (s t : Text) → Starts s → Starts t → Starts (s ++ t)
Starts-append [] t h k = k
Starts-append (c ∷ s) t h k = h

is_space-lower_byte : (c : ℕ) → is_space c ≡ false → is_space (lower_byte c) ≡ false
unfolding is_space lower_byte
is_space-lower_byte c h = ground arith

to_lower-Starts : (s : Text) → Starts s → Starts (to_lower s)
unfolding to_lower
to_lower-Starts [] h = tt
to_lower-Starts (c ∷ s) h = is_space-lower_byte c h

to_lower-append : (s t : Text) → to_lower (s ++ t) ≡ to_lower s ++ to_lower t
unfolding to_lower
to_lower-append [] t = refl
to_lower-append (c ∷ s) t = ap (λ r. lower_byte c ∷ r) (to_lower-append s t)

to_lower-reverse : (s : Text) → to_lower (reverse s) ≡ reverse (to_lower s)
unfolding to_lower
to_lower-reverse [] = refl
to_lower-reverse (c ∷ s) =
    ap to_lower (reverse-cons c s)
    ∙ to_lower-append (reverse s) (c ∷ [])
    ∙ ap (λ r. r ++ (lower_byte c ∷ [])) (to_lower-reverse s)
    ∙ sym (reverse-cons (lower_byte c) (to_lower s))

-- A normalized name does not end with a blank.
reverse-normalize_name : (s : Text) → Starts (reverse (normalize_name s))
unfolding normalize_name trim_space
reverse-normalize_name s =
    let inner = reverse (trim_left s) in
    subst Starts
      (ap to_lower (sym (reverse-reverse (trim_left inner)))
        ∙ to_lower-reverse (reverse (trim_left inner)))
      (to_lower-Starts (trim_left inner) (trim_left-Starts inner))

to_lower-Lacks : (s : Text) → Lacks comma s → Lacks comma (to_lower s)
unfolding to_lower lower_byte
to_lower-Lacks [] h = tt
to_lower-Lacks (c ∷ s) h = let ne = h.0 in (λ e. ground arith, to_lower-Lacks s h.1)

trim_left-Lacks : (s : Text) → Lacks comma s → Lacks comma (trim_left s)
unfolding trim_left
trim_left-Lacks [] h = tt
trim_left-Lacks (c ∷ s) h = elim (Bool-cases (is_space c)) [
  | inl e ↦ rw e (trim_left-Lacks s h.1)
  | inr e ↦ rw e h
]

trim_space-Lacks : (s : Text) → Lacks comma s → Lacks comma (trim_space s)
unfolding trim_space
trim_space-Lacks s h =
    All-reverse _ (trim_left (reverse (trim_left s)))
      (trim_left-Lacks (reverse (trim_left s)) (All-reverse _ (trim_left s) (trim_left-Lacks s h)))

normalize_name-Lacks : (s : Text) → Lacks comma s → Lacks comma (normalize_name s)
unfolding normalize_name
normalize_name-Lacks s h = to_lower-Lacks (trim_space s) (trim_space-Lacks s h)

cons_head-Lacks :
    (c : ℕ) (parts : List Text)
    → c ≢ comma
    → All (Lacks comma) parts
    → All (Lacks comma) (cons_head c parts)
cons_head-Lacks c [] ne h = ((ne, tt), tt)
cons_head-Lacks c (p ∷ parts) ne h = ((ne, h.0), h.1)

split-All-Lacks : (s : Text) → All (Lacks comma) (split s comma)
unfolding split
split-All-Lacks [] = (tt, tt)
split-All-Lacks (c ∷ s) = elim (Bool-cases (c == comma)) [
  | inl e ↦ rw e (tt, split-All-Lacks s)
  | inr e ↦
      let ne : c ≢ comma = λ q. ground arith in
      rw e (cons_head-Lacks c (split s comma) ne (split-All-Lacks s))
]

nonempty_parts-Lacks :
    (parts : List Text) → All (Lacks comma) parts → All (Lacks comma) (nonempty_parts parts)
unfolding nonempty_parts
nonempty_parts-Lacks [] h = tt
nonempty_parts-Lacks (p ∷ parts) h = elim (Bool-cases (trim_space p == [])) [
  | inl e ↦ rw e (nonempty_parts-Lacks parts h.1)
  | inr e ↦ rw e (trim_space-Lacks p h.0, nonempty_parts-Lacks parts h.1)
]

-- An internal name has no comma, and nothing to trim.
internal_proxy_name-Lacks : (s : Text) → Lacks comma s → Lacks comma (internal_proxy_name s)
unfolding internal_proxy_name
internal_proxy_name-Lacks s h =
    All-append (λ c. c ≢ comma) internal_proxy_prefix (normalize_name s)
      (omega arith, (omega arith, (omega arith, (omega arith, (omega arith, (omega arith, tt))))))
      (normalize_name-Lacks s h)

trim_space-internal_proxy_name :
    (s : Text) → trim_space (internal_proxy_name s) ≡ internal_proxy_name s
unfolding internal_proxy_name trim_space is_space
trim_space-internal_proxy_name s =
    let name = internal_proxy_prefix ++ normalize_name s in
    let back : Starts (reverse name) =
      subst Starts (sym (reverse-append internal_proxy_prefix (normalize_name s))) (
        Starts-append (reverse (normalize_name s)) (reverse internal_proxy_prefix)
          (reverse-normalize_name s) refl) in
    ap (λ t. reverse (trim_left (reverse t))) (Starts-trim_left name refl)
    ∙ ap reverse (Starts-trim_left (reverse name) back)
    ∙ reverse-reverse name

nonempty_parts-internal :
    (names : List Text)
    → nonempty_parts (map internal_proxy_name names) ≡ map internal_proxy_name names
unfolding nonempty_parts
nonempty_parts-internal [] = refl
nonempty_parts-internal (n ∷ names) =
    let ih = nonempty_parts-internal names in
    let same = trim_space-internal_proxy_name n in
    let named : (internal_proxy_name n == []) ≡ false =
      unfold internal_proxy_name text_beq in refl in
    simp (same, named, ih)

internal-Lacks :
    (names : List Text)
    → All (Lacks comma) names
    → All (Lacks comma) (map internal_proxy_name names)
internal-Lacks [] h = tt
internal-Lacks (n ∷ names) h = (internal_proxy_name-Lacks n h.0, internal-Lacks names h.1)

reads_back :
    (names : List Text)
    → All (Lacks comma) names
    → nonempty_parts (split (join (map internal_proxy_name names) comma) comma)
      ≡ map internal_proxy_name names
unfolding nonempty_parts
reads_back [] h = unfold join split trim_space trim_left text_beq in refl
reads_back (n ∷ names) h =
    ap nonempty_parts (
      split-join comma (internal_proxy_name n) (map internal_proxy_name names)
        (internal-Lacks (n ∷ names) h))
    ∙ nonempty_parts-internal (n ∷ names)

-- The names that the proxy routing reads from a translated xray field are the internal names of those
-- in the field, in their order, whatever blanks, letters and empty items the field has.
pub parse_interface-translate_xray_interface :
    (s : Text)
    → is_xray_interface s ≡ true
    → parse_interface proxy_prefix (translate_xray_interface s)
      ≡ map internal_proxy_name (parse_interface xray_prefix s)
unfolding parse_interface translate_xray_interface has_prefix
parse_interface-translate_xray_interface s h =
    let items = nonempty_parts (split (drop (length xray_prefix) s) comma) in
    let clean = nonempty_parts-Lacks _ (split-All-Lacks (drop (length xray_prefix) s)) in
    rw h (reads_back items clean)
