-- ===== src/Dns/Upstream/Ranked.antt =====
-- Forward and the order of the servers: the reply it returns is one of theirs, and none of theirs is
-- better.
use em_wall.Prelude.{
  ℕ, ◌≡◌, ◌⊎◌, inl, inr, refl, subst, sym, ap, ◌∙◌, Bool, true, some, List, [], ◌∷◌, Text, ◌==◌,
  nat_eq, leb, ltb, arith, Bool-cases, max, ◌≤◌, ◌<◌,
}
use em_wall.Dns.{Msg, Forwarded, failed, empty, replied}
use em_wall.Dns.Upstream.{
  rank_positive, rank_soft_fail, rank_response, Best, no_best, exchange, consider, attempt, outcome,
  forward_best,
}

-- The rank of what a server answers, and the highest among the servers.
unfoldable pub rank_of : Forwarded → ℕ
rank_of failed = 0
rank_of empty = 0
rank_of (replied m) = rank_response m

unfoldable pub top : (Text → Forwarded) → List Text → ℕ
unfolding rank_of
top reply [] = 0
top reply (s ∷ servers) = max (rank_of (reply s)) (top reply servers)

-- One of the servers gives this reply.
unfoldable pub Gives : (Text → Forwarded) → List Text → Forwarded → Type 0
Gives reply [] r = ⊥
Gives reply (s ∷ servers) r = (reply s ≡ r) ⊎ Gives reply servers r

rank_response-bounds : (m : Msg) → (0 < rank_response m) × (rank_response m ≤ rank_positive)
unfolding rank_response
rank_response-bounds m = (ground arith, ground arith)

rank_of-bound : (r : Forwarded) → rank_of r ≤ rank_positive
unfolding rank_of
rank_of-bound failed = omega arith
rank_of-bound empty = omega arith
rank_of-bound (replied m) = (rank_response-bounds m).1

top-bound : (reply : Text → Forwarded) (servers : List Text) → top reply servers ≤ rank_positive
unfolding top
top-bound reply [] = omega arith
top-bound reply (s ∷ servers) = omega (arith, top-bound reply servers, rank_of-bound (reply s))

module _ {World : Type 0} (reply : Text → Forwarded) where
  -- What the loop leaves, from the best before it: the highest rank, and a reply of that rank that
  -- the loop began with or that a server gives.
  pub record Leaves (servers : List Text) (b : Best) (result : World × Best × Bool) : Type 0 where
    pub fits : rank_of (outcome result.1) ≡ result.1.rank
    pub highest : result.1.rank ≡ max b.rank (top reply servers)
    pub given : (result.1 ≡ b) ⊎ Gives reply servers (outcome result.1)
    pub stops : result.2 ≡ true → result.1.rank ≡ rank_positive

  -- The rounds that follow, as this round finds them.
  abbrev Rounds : List Text → (World → Best → World × Best × Bool) → Type 0
  Rounds servers rest =
      (w : World) (b : Best) → rank_of (outcome b) ≡ b.rank → Leaves servers b (rest w b)

  skipped :
      (s : Text) (servers : List Text) (b : Best) (result : World × Best × Bool)
      → rank_of (reply s) ≤ b.rank
      → Leaves servers b result
      → Leaves (s ∷ servers) b result
  unfolding top Gives
  skipped s servers b result low v = record {
    fits = v.fits;
    highest = omega (arith, v.highest);
    given = elim v.given [ inl e ↦ inl e | inr g ↦ inr (inr g) ];
    stops = v.stops;
  }

  taken :
      (s : Text) (servers : List Text) (m : Msg) (b c : Best) (result : World × Best × Bool)
      → reply s ≡ replied m
      → c ≡ record { best = some m; rank = rank_response m }
      → b.rank < rank_response m
      → Leaves servers c result
      → Leaves (s ∷ servers) b result
  unfolding top Gives rank_of
  taken s servers m b c result e same more v =
      let same_rank : rank_of (reply s) ≡ rank_response m = ap rank_of e in
      record {
        fits = v.fits;
        highest = omega (arith, v.highest, ap (λ x. x.rank) same);
        given = elim v.given [
          | inl q ↦ inr (inl (e ∙ sym (ap outcome (q ∙ same))))
          | inr g ↦ inr (inr g)
        ];
        stops = v.stops;
      }

  stopped :
      (servers : List Text) (w : World) (b : Best)
      → rank_of (outcome b) ≡ b.rank
      → b.rank ≡ rank_positive
      → Leaves servers b (w, b, true)
  stopped servers w b fits top_rank = record {
    fits = fits;
    highest = omega (arith, top-bound reply servers);
    given = inl refl;
    stops = λ _. top_rank;
  }

  consider-Leaves :
      (s : Text) (servers : List Text) (rest : World → Best → World × Best × Bool) (w : World)
      (b : Best) (r : Forwarded)
      → Rounds servers rest
      → rank_of (outcome b) ≡ b.rank
      → reply s ≡ r
      → Leaves (s ∷ servers) b (consider rest b (w, r))
  unfolding consider rank_of
  consider-Leaves s servers rest w b failed after fits e =
      skipped s servers b (rest w b) (omega (arith, ap rank_of e)) (after w b fits)
  consider-Leaves s servers rest w b empty after fits e =
      skipped s servers b (rest w b) (omega (arith, ap rank_of e)) (after w b fits)
  consider-Leaves s servers rest w b (replied m) after fits e =
      let better : Best = record { best = some m; rank = rank_response m } in
      let result = consider rest b (w, replied m) in
      elim (Bool-cases (ltb b.rank (rank_response m))) [
        | inl more ↦ elim (Bool-cases (rank_response m == rank_positive)) [
          | inl stop ↦
              let q : result ≡ (w, better, true) = ground arith in
              subst (Leaves (s ∷ servers) b) (sym q) (
                taken s servers m b better (w, better, true) e refl (ground arith)
                  (stopped servers w better refl (ground arith)))
          | inr on ↦
              let q : result ≡ rest w better = ground arith in
              subst (Leaves (s ∷ servers) b) (sym q) (
                taken s servers m b better (rest w better) e refl (ground arith)
                  (after w better refl))
        ]
        | inr low ↦
            let q : result ≡ rest w b = ground arith in
            subst (Leaves (s ∷ servers) b) (sym q) (
              skipped s servers b (rest w b)
                (let bound : rank_response m ≤ b.rank = ground arith in omega (arith, ap rank_of e))
                (after w b fits))
      ]

module _ {World : Type 0} (udp tcp : World → Text → World × Forwarded) (reply : Text → Forwarded)
    (fixed : (w : World) (s : Text) → (exchange udp tcp w s).1 ≡ reply s) where
  attempt-Leaves :
      (servers : List Text) (w : World) (b : Best)
      → rank_of (outcome b) ≡ b.rank
      → Leaves reply servers b (attempt udp tcp servers w b)
  unfolding attempt top
  attempt-Leaves [] w b fits = record {
    fits = fits;
    highest = omega arith;
    given = inl refl;
    stops = λ q. cc;
  }
  attempt-Leaves (s ∷ servers) w b fits =
      let (v, r) = exchange udp tcp w s in
      consider-Leaves reply s servers (attempt udp tcp servers) v b r (attempt-Leaves servers) fits
        (sym (fixed w s))

  Answer : List Text → Forwarded → Type 0
  Answer servers r = (rank_of r ≡ top reply servers) × ((r ≡ failed) ⊎ Gives reply servers r)

  once-Answer :
      (servers : List Text) (result : World × Best × Bool)
      → Leaves reply servers no_best result
      → Answer servers (outcome result.1)
  unfolding Answer
  once-Answer servers result v = (
    omega (arith, v.fits, v.highest),
    elim v.given [ inl e ↦ inl (ap outcome e) | inr g ↦ inr g ],
  )

  twice-Answer :
      (servers : List Text) (first second : World × Best × Bool)
      → Leaves reply servers no_best first
      → Leaves reply servers first.1 second
      → Answer servers (outcome second.1)
  unfolding Answer
  twice-Answer servers first second v u = (
    omega (arith, u.fits, u.highest, v.highest),
    elim u.given [
      | inl e ↦ elim v.given [
        | inl f ↦ inl (ap outcome (e ∙ f))
        | inr g ↦ inr (subst (λ b. Gives reply servers (outcome b)) (sym e) g)
      ]
      | inr g ↦ inr g
    ],
  )

  -- Where every server answers the same whenever it is asked, Forward returns a reply of one of them
  -- whose rank no server's answer exceeds, whatever their order, and an error where none replies.
  pub forward_best_lem :
      (servers : List Text) (w : World)
      → let result = (forward_best udp tcp servers w).1 in
        (rank_of result ≡ top reply servers) × ((result ≡ failed) ⊎ Gives reply servers result)
  unfolding forward_best rank_of Answer
  forward_best_lem servers w =
      let (v, b, positive) = attempt udp tcp servers w no_best in
      let first = attempt-Leaves servers w no_best refl in
      let second = attempt-Leaves servers v b first.fits in
      let one = once-Answer servers (v, b, positive) first in
      let two = twice-Answer servers (v, b, positive) (attempt udp tcp servers v b) first second in
      elim (Bool-cases positive) [
        | inl e ↦ rw e one
        | inr e ↦ elim (Bool-cases (leb b.rank rank_soft_fail)) [
          | inl q ↦ rw (e, q) two
          | inr q ↦ rw (e, q) one
        ]
      ]
