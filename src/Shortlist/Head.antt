-- ===== src/Shortlist/Head.antt =====
-- The head of a shortlist that keeps its members.
use em_wall.Prelude.{
  ◌+◌, ◌*◌, ◌++◌, ◌≤◌, ◌<◌, ◌⊎◌, ◌∙◌, Option, ℕ, suc, ◌≡◌, refl, sym, ap, subst, true, false, some,
  List, [], ◌∷◌, Text, text_eq, nat_eq, ltb, length, All, arith, Bool-cases, inl, inr,
}
use em_wall.Shortlist.{best_from, replace_at, Scores, score_of, beats_shortlisted, promote}

-- A score beats another one clearly: it is 50 ms lower at least, and a quarter of the other at least.
abbrev pub ClearlyBeats : ℕ → ℕ → Type 0
ClearlyBeats challenger incumbent =
    (challenger + 50000000 ≤ incumbent) × (4 * challenger ≤ 3 * incumbent)

pub beats_shortlisted-ClearlyBeats :
    (c i : ℕ)
    → ((beats_shortlisted c i ≡ true) × ClearlyBeats c i)
      ⊎ ((beats_shortlisted c i ≡ false) × ¬ (ClearlyBeats c i))
unfolding beats_shortlisted
beats_shortlisted-ClearlyBeats c i = elim (Bool-cases (beats_shortlisted c i)) [
  | inl h ↦ inl (h, (ground arith, ground arith))
  | inr h ↦ inr (h, λ (floor, part). ground arith)
]

-- Where the search for the lowest score ends: at the seat it has, if no other one is lower, or at the
-- first of the lowest.
data Lowest (scores : Scores) (best : ℕ) (at : Text) (i : ℕ) (seats : List Text) (found : ℕ × Text)
    : Type 0 where
  stays :
      found ≡ (best, at)
      → All (λ k. score_of scores at ≤ score_of scores k) seats
      → Lowest scores best at i seats found
  lower :
      (before behind : List Text) (key : Text)
      → seats ≡ before ++ (key ∷ behind)
      → found ≡ (i + length before, key)
      → score_of scores key < score_of scores at
      → All (λ k. score_of scores key ≤ score_of scores k) seats
      → Lowest scores best at i seats found

best_from-Lowest :
    (scores : Scores) (best : ℕ) (at : Text) (i : ℕ) (seats : List Text)
    → Lowest scores best at i seats (best_from scores best at i seats)
unfolding best_from
best_from-Lowest scores best at i [] = stays refl tt
best_from-Lowest scores best at i (k ∷ seats) =
    elim (Bool-cases (ltb (score_of scores k) (score_of scores at))) [
      | inl less ↦
          rw (less, best_from)
            (elim (best_from-Lowest scores i k (suc i) seats) [
              | stays e all ↦
                  lower [] seats k refl (e ∙ ap (λ n. (n, k)) (omega arith)) (ground arith)
                    (omega arith, all)
              | lower before behind key e found less_key all ↦
                  lower (k ∷ before) behind key (ap (λ ks. k ∷ ks) e)
                    (found ∙ ap (λ n. (n, key)) (omega arith)) (ground arith) (omega arith, all)
            ])
      | inr not_less ↦
          rw (not_less, best_from)
            (elim (best_from-Lowest scores best at (suc i) seats) [
              | stays e all ↦ stays e (ground arith, all)
              | lower before behind key e found less_key all ↦
                  lower (k ∷ before) behind key (ap (λ ks. k ∷ ks) e)
                    (found ∙ ap (λ n. (n, key)) (omega arith)) less_key (ground arith, all)
            ])
    ]

replace_at-length :
    (before behind : List Text) (key v : Text)
    → replace_at (length before) v (before ++ (key ∷ behind)) ≡ before ++ (v ∷ behind)
replace_at-length [] behind key v = refl
replace_at-length (b ∷ before) behind key v =
    ap (λ ks. b ∷ ks) (replace_at-length before behind key v)

-- What becomes of a shortlist that keeps its members: all stays where it is, if none of them clearly
-- beats the head; or the first of the best changes places with the head, which it clearly beats.
pub data Settled (scores : Scores) (j : Text) (old : List Text) : Option (List Text) → Type 0 where
  unchanged :
      All (λ k. ¬ (ClearlyBeats (score_of scores k) (score_of scores j))) old
      → Settled scores j old (some (j ∷ old))
  headed :
      (before behind : List Text) (key : Text)
      → old ≡ before ++ (key ∷ behind)
      → ClearlyBeats (score_of scores key) (score_of scores j)
      → All (λ k. score_of scores key ≤ score_of scores k) old
      → Settled scores j old (some (key ∷ before ++ (j ∷ behind)))

none_clear :
    (scores : Scores) (c i : ℕ) (seats : List Text)
    → ¬ (ClearlyBeats c i)
    → All (λ k. c ≤ score_of scores k) seats
    → All (λ k. ¬ (ClearlyBeats (score_of scores k) i)) seats
none_clear scores c i [] not_clear all = tt
none_clear scores c i (k ∷ seats) not_clear all = (
  λ (floor, part). let le = all.0 in not_clear (omega arith, omega arith),
  none_clear scores c i seats not_clear all.1,
)

pub promote-Settled :
    (scores : Scores) (j : Text) (old : List Text)
    → Settled scores j old (some (promote scores (j ∷ old)))
unfolding promote best_from beats_shortlisted
promote-Settled scores j old =
    let first : ltb (score_of scores j) (score_of scores j) ≡ false = ground arith in
    rw first (elim (best_from-Lowest scores 0 j 1 old) [
      | stays e all ↦ rw e (
          unchanged (
            none_clear scores (score_of scores j) (score_of scores j) old
              (λ (floor, part). omega arith) all))
      | lower before behind key e found less all ↦
          let at_it : best_from scores 0 j 1 old ≡ (suc (length before), key) =
            found ∙ ap (λ n. (n, key)) (omega arith) in
          rw at_it
            (elim (beats_shortlisted-ClearlyBeats (score_of scores key) (score_of scores j)) [
              | inl (e_yes, clear) ↦
                  let swapped : key ∷ replace_at (length before) j old
                      ≡ key ∷ (before ++ (j ∷ behind)) =
                    ap (λ ks. key ∷ ks)
                      (ap (replace_at (length before) j) e
                        ∙ replace_at-length before behind key j) in
                  subst (λ ks. Settled scores j old (some ks)) (sym swapped ∙ ground arith)
                    (headed before behind key e clear all)
              | inr (e_no, not_clear) ↦
                  subst (λ ks. Settled scores j old (some ks)) (ground arith)
                    (unchanged (
                      none_clear scores (score_of scores key) (score_of scores j) old not_clear
                        all))
            ])
    ])
