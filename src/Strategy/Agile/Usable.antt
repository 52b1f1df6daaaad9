-- ===== src/Strategy/Agile/Usable.antt =====
-- The candidates of an agile pick: how many there are, and what is so of each of them.
use em_wall.Prelude.{
  ℕ, zero, suc, ◌+◌, ◌≡◌, ◌≢◌, ◌∙◌, min, refl, ap, subst, Bool, true, false, not, ◌&&◌, Option,
  List, [], ◌∷◌, Text, ◌==◌, text_eq, nat_eq, text_beq_iff, length, is_listed, if◌then◌else◌, All,
  arith, Bool-cases, inl, inr,
}
use em_wall.Text.{insert_text, sort_texts}
use em_wall.NodePark.{NodeStatus}
use em_wall.Strategy.Agile.{
  is_answering, AgileSlot, Cand, candidates, not_broken, usable, insert_cand, sort_cands,
  first_keys, key_after, spare_of,
}

-- How many members answer.
abbrev pub answering : (ℕ → Text → Option NodeStatus) → ℕ → List Text → ℕ
answering status i [] = 0
answering status i (k ∷ keys) =
    if is_answering (status i k) then answering status i keys + 1 else answering status i keys

-- How many of them are not broken.
abbrev pub working : (ℕ → Text → Option NodeStatus) → ℕ → List Text → List Text → ℕ
working status i broken [] = 0
working status i broken (k ∷ keys) =
    if is_answering (status i k) && not (is_listed k broken)
    then working status i broken keys + 1
    else working status i broken keys

-- A member that may be picked.
abbrev pub MayCarry : (ℕ → Text → Option NodeStatus) → AgileSlot → Text → Type 0
MayCarry status sl k =
    (is_listed k sl.members ≡ true)
    × (is_answering (status sl.index k) ≡ true)
    × (working status sl.index sl.broken sl.members ≢ 0 → is_listed k sl.broken ≡ false)

length-insert_cand : (c : Cand) (cs : List Cand) → length (insert_cand c cs) ≡ suc (length cs)
unfolding insert_cand
length-insert_cand c [] = refl
length-insert_cand c (d ∷ ds) = ground (arith, length-insert_cand c ds)

pub length-sort_cands : (cs : List Cand) → length (sort_cands cs) ≡ length cs
unfolding sort_cands
length-sort_cands [] = refl
length-sort_cands (c ∷ cs) = length-insert_cand c (sort_cands cs) ∙ ap suc (length-sort_cands cs)

length-insert_text : (s : Text) (ts : List Text) → length (insert_text s ts) ≡ suc (length ts)
unfolding insert_text
length-insert_text s [] = refl
length-insert_text s (t ∷ ts) = ground (arith, length-insert_text s ts)

pub length-sort_texts : (ts : List Text) → length (sort_texts ts) ≡ length ts
unfolding sort_texts
length-sort_texts [] = refl
length-sort_texts (t ∷ ts) = length-insert_text t (sort_texts ts) ∙ ap suc (length-sort_texts ts)

pub length-first_keys : (n : ℕ) (cs : List Cand) → length (first_keys n cs) ≡ min n (length cs)
length-first_keys zero cs = omega arith
length-first_keys (suc n) [] = omega arith
length-first_keys (suc n) (c ∷ cs) = omega (arith, length-first_keys n cs)

-- A property of all candidates, or keys, does not depend on their order.
module _ (P : Text → Type 0) where
  insert_cand-All :
      (c : Cand) (cs : List Cand)
      → P c.key
      → All (λ d. P d.key) cs
      → All (λ d. P d.key) (insert_cand c cs)
  unfolding insert_cand
  insert_cand-All c [] p ps = (p, tt)
  insert_cand-All c (d ∷ ds) p ps = ground (arith, insert_cand-All c ds p ps.1)

  pub sort_cands-All : (cs : List Cand) → All (λ d. P d.key) cs → All (λ d. P d.key) (sort_cands cs)
  unfolding sort_cands
  sort_cands-All [] ps = tt
  sort_cands-All (c ∷ cs) ps = insert_cand-All c (sort_cands cs) ps.0 (sort_cands-All cs ps.1)

  insert_text-All : (s : Text) (ts : List Text) → P s → All P ts → All P (insert_text s ts)
  unfolding insert_text
  insert_text-All s [] p ps = (p, tt)
  insert_text-All s (t ∷ ts) p ps = ground (arith, insert_text-All s ts p ps.1)

  pub sort_texts-All : (ts : List Text) → All P ts → All P (sort_texts ts)
  unfolding sort_texts
  sort_texts-All [] ps = tt
  sort_texts-All (t ∷ ts) ps = insert_text-All t (sort_texts ts) ps.0 (sort_texts-All ts ps.1)

  pub first_keys-All : (n : ℕ) (cs : List Cand) → All (λ d. P d.key) cs → All P (first_keys n cs)
  first_keys-All zero cs ps = tt
  first_keys-All (suc n) [] ps = tt
  first_keys-All (suc n) (c ∷ cs) ps = (ps.0, first_keys-All n cs ps.1)

  All-listed : (k : Text) (ts : List Text) → All P ts → is_listed k ts ≡ true → P k
  All-listed k [] ps h = cc
  All-listed k (t ∷ ts) ps h = elim (Bool-cases (t == k)) [
    | inl same ↦ subst P ((text_beq_iff t k).0 same) ps.0
    | inr other ↦ All-listed k ts ps.1 (ground arith)
  ]

  pub spare_of-All :
      (n : ℕ) (cs : List Cand) (active : List Text) (old cheapest : Text)
      → All (λ d. P d.key) cs
      → All P active
      → P cheapest
      → P (spare_of (key_after n cs) active old cheapest)
  spare_of-All n [] active old cheapest ps qs p = elim (Bool-cases (is_listed old active)) [
    | inl kept ↦ rw kept (All-listed old active qs kept)
    | inr gone ↦ rw gone p
  ]
  spare_of-All zero (c ∷ cs) active old cheapest ps qs p = ps.0
  spare_of-All (suc n) (c ∷ cs) active old cheapest ps qs p =
      spare_of-All n cs active old cheapest ps.1 qs p

module _ (cost : Text → Bool → ℕ) (status : ℕ → Text → Option NodeStatus) (i : ℕ)
    (was : List Text) where
  pub length-candidates :
      (keys : List Text) → length (candidates cost status i was keys) ≡ answering status i keys
  unfolding candidates
  length-candidates [] = refl
  length-candidates (k ∷ keys) = ground (arith, length-candidates keys)

  pub length-not_broken :
      (broken keys : List Text)
      → length (not_broken broken (candidates cost status i was keys))
        ≡ working status i broken keys
  unfolding candidates not_broken
  length-not_broken broken [] = refl
  length-not_broken broken (k ∷ keys) = ground (arith, length-not_broken broken keys)

  abbrev pub Answers : List Text → Text → Type 0
  Answers members k = (is_listed k members ≡ true) × (is_answering (status i k) ≡ true)

  Answers-cons :
      (j : Text) (members : List Text) (cs : List Cand)
      → All (λ d. Answers members d.key) cs
      → All (λ d. Answers (j ∷ members) d.key) cs
  Answers-cons j members [] h = tt
  Answers-cons j members (c ∷ cs) h = ((ground arith, h.0.1), Answers-cons j members cs h.1)

  pub candidates-Answers :
      (members : List Text)
      → All (λ d. Answers members d.key) (candidates cost status i was members)
  unfolding candidates
  candidates-Answers [] = tt
  candidates-Answers (k ∷ members) =
      let ih =
        Answers-cons k members (candidates cost status i was members)
          (candidates-Answers members) in
      let same = text_beq_iff k k in
      elim (Bool-cases (is_answering (status i k))) [
        | inl on ↦ rw (on, candidates) ((ground arith, on), ih)
        | inr off ↦ rw (off, candidates) ih
      ]

not_broken-All :
    (P : Text → Type 0) (broken : List Text) (cs : List Cand)
    → All (λ d. P d.key) cs
    → All (λ d. P d.key × (is_listed d.key broken ≡ false)) (not_broken broken cs)
unfolding not_broken
not_broken-All P broken [] h = tt
not_broken-All P broken (c ∷ cs) h =
    let ih = not_broken-All P broken cs h.1 in
    elim (Bool-cases (is_listed c.key broken)) [
      | inl out ↦ rw (out, not_broken) ih
      | inr kept ↦ rw (kept, not_broken) ((h.0, kept), ih)
    ]

pub All-map :
    (P Q : Text → Type 0) (cs : List Cand)
    → ((k : Text) → P k → Q k)
    → All (λ d. P d.key) cs
    → All (λ d. Q d.key) cs
All-map P Q [] f h = tt
All-map P Q (c ∷ cs) f h = (f c.key h.0, All-map P Q cs f h.1)

-- The candidates that are left, from how many are not broken.
pub usable-All :
    (P : Text → Type 0) (broken : List Text) (cs kept : List Cand)
    → not_broken broken cs ≡ kept
    → All (λ d. P d.key) cs
    → All (λ d. P d.key × (length kept ≢ 0 → is_listed d.key broken ≡ false)) (usable broken cs)
unfolding usable
usable-All P broken cs [] e h =
    rw (e, usable)
      (All-map P (λ k. P k × (0 ≢ 0 → is_listed k broken ≡ false)) cs
        (λ k p. (p, λ z. absurd (z refl))) h)
usable-All P broken cs (d ∷ ds) e h =
    rw (e, usable)
      (All-map (λ k. P k × (is_listed k broken ≡ false))
        (λ k. P k × (suc (length ds) ≢ 0 → is_listed k broken ≡ false)) (d ∷ ds)
        (λ k p. (p.0, λ z. p.1))
        (subst (All (λ d. P d.key × (is_listed d.key broken ≡ false))) e
          (not_broken-All P broken cs h)))

pub length-usable :
    (broken : List Text) (cs kept : List Cand)
    → not_broken broken cs ≡ kept
    → length (usable broken cs) ≡ (if length kept == 0 then length cs else length kept)
unfolding usable
length-usable broken cs [] e = rw (e, usable) refl
length-usable broken cs (d ∷ ds) e = rw (e, usable) (ground arith)
