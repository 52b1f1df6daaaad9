-- ===== src/Shortlist/Qualified.antt =====
-- Every seat of a shortlist is held by a member that qualifies.
use em_wall.Prelude.{
  ℕ, zero, suc, ◌+◌, ◌-◌, ◌≤◌, ◌≡◌, ◌∙◌, refl, sym, ap, subst, true, not, ◌&&◌, none, some, List,
  [], ◌∷◌, ◌++◌, Text, ◌==◌, text_eq, nat_eq, text_beq_iff, ltb, length, length-append, lookup,
  is_listed, All, arith, Bool-cases, inl, inr,
}
use em_wall.Shortlist.{
  Scores, score_of, has_score, beats_shortlisted, keep_seats, outsiders, insert_out, sort_outs,
  fill_seats, weakest, replace_at, displace, best_from, promote, pick_shortlist,
}

-- Every key has a score.
abbrev pub Scored : Scores → List Text → Type 0
Scored scores = All (λ k. has_score scores k ≡ true)

keep_seats-Scored :
    (scores : Scores) (n : ℕ) (old : List Text)
    → Scored scores (keep_seats scores n old) × (length (keep_seats scores n old) ≤ n)
unfolding keep_seats
keep_seats-Scored scores n [] = (tt, omega arith)
keep_seats-Scored scores zero (k ∷ old) = (tt, omega arith)
keep_seats-Scored scores (suc n) (k ∷ old) =
    let same = keep_seats-Scored scores (suc n) old in
    let fewer = keep_seats-Scored scores n old in
    let le = fewer.1 in
    elim (Bool-cases (has_score scores k)) [
      | inl on ↦ rw (on, keep_seats) ((on, fewer.0), omega arith)
      | inr off ↦ rw (off, keep_seats) same
    ]

has_score-cons :
    (k : Text) (c : ℕ) (scores : Scores) (j : Text)
    → has_score scores j ≡ true
    → has_score ((k, c) ∷ scores) j ≡ true
unfolding has_score lookup
has_score-cons k c scores j h = ground arith

Scored-cons :
    (k : Text) (c : ℕ) (scores : Scores) (keys : List Text)
    → Scored scores keys
    → Scored ((k, c) ∷ scores) keys
Scored-cons k c scores [] h = tt
Scored-cons k c scores (j ∷ keys) h =
    (has_score-cons k c scores j h.0, Scored-cons k c scores keys h.1)

has_score-head : (k : Text) (c : ℕ) (scores : Scores) → has_score ((k, c) ∷ scores) k ≡ true
unfolding has_score lookup
has_score-head k c scores = let same = text_beq_iff k k in ground arith

pub outsiders-Scored :
    (seats : List Text) (scores : Scores) → Scored scores (outsiders seats scores)
unfolding outsiders
outsiders-Scored seats [] = tt
outsiders-Scored seats ((k, c) ∷ scores) =
    let ih = Scored-cons k c scores (outsiders seats scores) (outsiders-Scored seats scores) in
    elim (Bool-cases (is_listed k seats)) [
      | inl seated ↦ rw (seated, outsiders) ih
      | inr out ↦ rw (out, outsiders) (has_score-head k c scores, ih)
    ]

insert_out-Scored :
    (scores : Scores) (k : Text) (outs : List Text)
    → has_score scores k ≡ true
    → Scored scores outs
    → Scored scores (insert_out scores k outs)
unfolding insert_out
insert_out-Scored scores k [] h hs = (h, tt)
insert_out-Scored scores k (j ∷ outs) h hs = ground (arith, insert_out-Scored scores k outs h hs.1)

pub sort_outs-Scored :
    (scores : Scores) (outs : List Text)
    → Scored scores outs
    → Scored scores (sort_outs scores outs)
unfolding sort_outs
sort_outs-Scored scores [] hs = tt
sort_outs-Scored scores (k ∷ outs) hs =
    insert_out-Scored scores k (sort_outs scores outs) hs.0 (sort_outs-Scored scores outs hs.1)

append-Scored :
    (scores : Scores) (xs ys : List Text)
    → Scored scores xs
    → Scored scores ys
    → Scored scores (xs ++ ys)
append-Scored scores [] ys hx hy = hy
append-Scored scores (x ∷ xs) ys hx hy = (hx.0, append-Scored scores xs ys hx.1 hy)

fill_seats-Scored :
    (scores : Scores) (n : ℕ) (next outs : List Text)
    → Scored scores next
    → Scored scores outs
    → Scored scores (fill_seats n next outs).0
      × Scored scores (fill_seats n next outs).1
      × (length (fill_seats n next outs).0 ≤ length next + n)
unfolding fill_seats
fill_seats-Scored scores zero next outs hn ho = (hn, ho, omega arith)
fill_seats-Scored scores (suc n) next [] hn ho = (hn, tt, omega arith)
fill_seats-Scored scores (suc n) next (o ∷ outs) hn ho =
    let (a, b, le) =
      fill_seats-Scored scores n (next ++ (o ∷ [])) outs
        (append-Scored scores next (o ∷ []) hn (ho.0, tt)) ho.1 in
    (a, b, omega (arith, length-append next (o ∷ [])))

replace_at-Scored :
    (scores : Scores) (i : ℕ) (v : Text) (seats : List Text)
    → has_score scores v ≡ true
    → Scored scores seats
    → Scored scores (replace_at i v seats)
replace_at-Scored scores i v [] h hs = tt
replace_at-Scored scores zero v (k ∷ seats) h hs = (h, hs.1)
replace_at-Scored scores (suc i) v (k ∷ seats) h hs =
    (hs.0, replace_at-Scored scores i v seats h hs.1)

length-replace_at :
    (i : ℕ) (v : Text) (seats : List Text) → length (replace_at i v seats) ≡ length seats
length-replace_at i v [] = refl
length-replace_at zero v (k ∷ seats) = refl
length-replace_at (suc i) v (k ∷ seats) = ap suc (length-replace_at i v seats)

displace-Scored :
    (scores : Scores) (next outs : List Text)
    → Scored scores next
    → Scored scores outs
    → Scored scores (displace scores next outs) × (length (displace scores next outs) ≡ length next)
unfolding displace
displace-Scored scores next [] hn ho = (hn, refl)
displace-Scored scores next (o ∷ outs) hn ho =
    let weak = (weakest scores next).0 in
    let again =
      displace-Scored scores (replace_at weak o next) outs
        (replace_at-Scored scores weak o next ho.0 hn) ho.1 in
    elim (Bool-cases (beats_shortlisted (score_of scores o) (weakest scores next).1)) [
      | inl better ↦ rw (better, displace) (again.0, again.1 ∙ length-replace_at weak o next)
      | inr stays ↦ rw (stays, displace) (hn, refl)
    ]

best_from-Scored :
    (scores : Scores) (best : ℕ) (at : Text) (i : ℕ) (seats : List Text)
    → has_score scores at ≡ true
    → Scored scores seats
    → has_score scores (best_from scores best at i seats).1 ≡ true
unfolding best_from
best_from-Scored scores best at i [] h hs = h
best_from-Scored scores best at i (k ∷ seats) h hs =
    elim (Bool-cases (ltb (score_of scores k) (score_of scores at))) [
      | inl lower ↦ rw (lower, best_from) (best_from-Scored scores i k (suc i) seats hs.0 hs.1)
      | inr same ↦ rw (same, best_from) (best_from-Scored scores best at (suc i) seats h hs.1)
    ]

promote-Scored :
    (scores : Scores) (seats : List Text)
    → Scored scores seats
    → Scored scores (promote scores seats) × (length (promote scores seats) ≡ length seats)
unfolding promote
promote-Scored scores [] hs = (tt, refl)
promote-Scored scores (k ∷ seats) hs =
    let (best, at) = best_from scores 0 k 0 (k ∷ seats) in
    let h = best_from-Scored scores 0 k 0 (k ∷ seats) hs.0 hs in
    let swapped = replace_at best k (k ∷ seats) in
    elim (Bool-cases
      (not (best == 0) && beats_shortlisted (score_of scores at) (score_of scores k))) [
        | inl better ↦
            rw (better, promote)
              (
                replace_at-Scored scores 0 at swapped h
                    (replace_at-Scored scores best k (k ∷ seats) hs.0 hs),
                length-replace_at 0 at swapped ∙ length-replace_at best k (k ∷ seats),
              )
        | inr stays ↦ rw (stays, promote) (hs, refl)
      ]

pick_shortlist-Scored :
    (old : List Text) (scores : Scores) (size : ℕ) (next : List Text)
    → pick_shortlist old scores size ≡ some next
    → Scored scores next × (length next ≤ size)
unfolding pick_shortlist
pick_shortlist-Scored old [] size next e = cc
pick_shortlist-Scored old ((j, c) ∷ rest) size next e =
    let scores : Scores = (j, c) ∷ rest in
    let kept = keep_seats scores size old in
    let k = keep_seats-Scored scores size old in
    let sorted = sort_outs-Scored scores (outsiders kept scores) (outsiders-Scored kept scores) in
    let (a, b, le) =
      fill_seats-Scored scores (size - length kept) kept (sort_outs scores (outsiders kept scores))
        k.0 sorted in
    let filled = fill_seats (size - length kept) kept (sort_outs scores (outsiders kept scores)) in
    let d = displace-Scored scores filled.0 filled.1 a b in
    let p = promote-Scored scores (displace scores filled.0 filled.1) d.0 in
    let same : promote scores (displace scores filled.0 filled.1) ≡ next = cc e in
    let k_le = k.1 in
    let p_le = p.1 in
    let d_le = d.1 in subst (λ ks. Scored scores ks × (length ks ≤ size)) same (p.0, omega arith)

-- A shortlist is left as it is when no member qualifies. A new one has at most as many members as
-- there are seats, and each of them qualified in this round: one that fails loses its seat at once.
pub pick_shortlist_lem :
    (old : List Text) (scores : Scores) (size : ℕ)
    → (scores ≡ [] → pick_shortlist old scores size ≡ none)
      × ((next : List Text)
          → pick_shortlist old scores size ≡ some next
          → All (λ k. has_score scores k ≡ true) next × (length next ≤ size))
unfolding pick_shortlist
pick_shortlist_lem old scores size = (
  λ e. subst (λ s. pick_shortlist old s size ≡ none) (sym e) refl,
  pick_shortlist-Scored old scores size,
)
