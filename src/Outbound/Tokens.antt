-- ===== src/Outbound/Tokens.antt =====
-- What splitting, cutting and trimming make of a text without blanks and separators.
use mathlib.Core.List.{reverse, reverse-cons, reverse-reverse}
use em_wall.Prelude.{
  ℕ, ◌≡◌, ◌≢◌, ◌∙◌, refl, sym, ap, subst, true, false, List, [], ◌∷◌, ◌++◌, Text, nat_eq, text_eq,
  All, arith,
}
use em_wall.Text.{to_lower, is_space, trim_left, trim_space, split, join}
use em_wall.Outbound.{comma, normalize_name, name_byte, name_bytes}

-- No code of the text is a blank, or is the separator.
abbrev pub NoBlank : Text → Type 0
NoBlank = All (λ c. is_space c ≡ false)

abbrev pub Lacks : ℕ → Text → Type 0
Lacks sep = All (λ c. c ≢ sep)

pub All-append : (P : ℕ → Type 0) (s t : Text) → All P s → All P t → All P (s ++ t)
All-append P [] t hs ht = ht
All-append P (c ∷ s) t hs ht = (hs.0, All-append P s t hs.1 ht)

pub All-reverse : (P : ℕ → Type 0) (s : Text) → All P s → All P (reverse s)
All-reverse P [] h = tt
All-reverse P (c ∷ s) h =
    subst (All P) (sym (reverse-cons c s))
      (All-append P (reverse s) (c ∷ []) (All-reverse P s h.1) (h.0, tt))

trim_left-NoBlank : (s : Text) → NoBlank s → trim_left s ≡ s
unfolding trim_left
trim_left-NoBlank [] h = refl
trim_left-NoBlank (c ∷ s) h = rw h.0

pub trim_space-NoBlank : (s : Text) → NoBlank s → trim_space s ≡ s
unfolding trim_space
trim_space-NoBlank s h =
    ap (λ t. reverse (trim_left (reverse t))) (trim_left-NoBlank s h)
    ∙ ap reverse (trim_left-NoBlank (reverse s) (All-reverse (λ c. is_space c ≡ false) s h))
    ∙ reverse-reverse s

split-Lacks : (sep : ℕ) (s : Text) → Lacks sep s → split s sep ≡ s ∷ []
unfolding split
split-Lacks sep [] h = refl
split-Lacks sep (c ∷ s) h = ground (arith, split-Lacks sep s h.1)

split-append : (sep : ℕ) (s t : Text) → Lacks sep s → split (s ++ (sep ∷ t)) sep ≡ s ∷ split t sep
unfolding split
split-append sep [] t h = ground arith
split-append sep (c ∷ s) t h = let ih = split-append sep s t h.1 in let ne = h.0 in ground arith

pub split-join :
    (sep : ℕ) (p : Text) (parts : List Text)
    → All (Lacks sep) (p ∷ parts)
    → split (join (p ∷ parts) sep) sep ≡ p ∷ parts
unfolding join
split-join sep p [] h = split-Lacks sep p h.0
split-join sep p (q ∷ parts) h =
    split-append sep p (join (q ∷ parts) sep) h.0 ∙ ap (λ ps. p ∷ ps) (split-join sep q parts h.1)

-- A name byte is no blank, no separator and no upper-case letter.
name_byte-plain : (c : ℕ) → name_byte c ≡ true → (is_space c ≡ false) × (c ≢ comma)
unfolding name_byte is_space
name_byte-plain c h = (ground arith, λ e. ground arith)

pub name_bytes-NoBlank : (s : Text) → name_bytes s ≡ true → NoBlank s
unfolding name_bytes
name_bytes-NoBlank [] h = tt
name_bytes-NoBlank (c ∷ s) h =
    ((name_byte-plain c (ground arith)).0, name_bytes-NoBlank s (ground arith))

pub name_bytes-Lacks : (s : Text) → name_bytes s ≡ true → Lacks comma s
unfolding name_bytes
name_bytes-Lacks [] h = tt
name_bytes-Lacks (c ∷ s) h =
    ((name_byte-plain c (ground arith)).1, name_bytes-Lacks s (ground arith))

to_lower-name_bytes : (s : Text) → name_bytes s ≡ true → to_lower s ≡ s
unfolding to_lower name_bytes name_byte
to_lower-name_bytes [] h = refl
to_lower-name_bytes (c ∷ s) h = ground (arith, to_lower-name_bytes s)

pub normalize_name-name_bytes : (s : Text) → name_bytes s ≡ true → normalize_name s ≡ s
unfolding normalize_name
normalize_name-name_bytes s h =
    ap to_lower (trim_space-NoBlank s (name_bytes-NoBlank s h)) ∙ to_lower-name_bytes s h
