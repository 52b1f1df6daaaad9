-- ===== src/NodePark/Pools.antt =====
-- Parking never empties a pool, and never judges one that is down as a whole.
use em_wall.Prelude.{
  ℕ, ◌+◌, ◌≤◌, ◌≡◌, ◌≢◌, refl, ap, not, ◌&&◌, List, [], ◌∷◌, Text, ◌==◌, nat_eq, text_eq,
  text_beq_iff, length, length-zero, is_listed, arith, Bool-cases, inl, inr,
}
use em_wall.NodePark.{Round, without_parked, not_listed}

-- The members that are left and those that were parked make up the pool, at least one is left, and
-- without a member alive none was parked.
record IsRound (alive total : ℕ) (r : Round) : Type 0 where
  sum : r.remaining + length r.events ≡ total
  left : (1 ≤ total) → 1 ≤ r.remaining
  none_alive : alive ≡ 0 → length r.events ≡ 0

not_listed-nil : (members : List Text) → not_listed [] members ≡ members
not_listed-nil [] = refl
not_listed-nil (k ∷ members) = ap (λ ks. k ∷ ks) (not_listed-nil members)

is_listed-not_listed :
    (gone members : List Text) (k : Text)
    → is_listed k (not_listed gone members) ≡ (is_listed k members && not (is_listed k gone))
is_listed-not_listed gone [] k = refl
is_listed-not_listed gone (j ∷ members) k =
    let ih = is_listed-not_listed gone members k in
    elim (Bool-cases (j == k)) [
      | inl same ↦
          let eq : is_listed j gone ≡ is_listed k gone =
            ap (λ x. is_listed x gone) ((text_beq_iff j k).0 same) in
          ground arith
      | inr other ↦ ground arith
    ]

-- Leaving out the parked members never leaves a pool empty: where some member is not parked, exactly
-- those that are not parked are left, and otherwise all of them.
pub without_parked_lem :
    (members gone : List Text) (k : Text)
    → (without_parked members gone ≡ [] → members ≡ [])
      × ((not_listed gone members ≢ []
            → is_listed k (without_parked members gone)
              ≡ (is_listed k members && not (is_listed k gone)))
          × (not_listed gone members ≡ [] → without_parked members gone ≡ members))
unfolding without_parked
without_parked_lem members [] k =
    let listed = is_listed-not_listed [] members k in
    let same = not_listed-nil members in (λ h. ground arith, (λ h. ground arith, λ h. ground arith))
without_parked_lem members (g ∷ gone) k =
    let out = not_listed (g ∷ gone) members in
    let listed = is_listed-not_listed (g ∷ gone) members k in
    let none_left = length-zero out in (λ h. ground arith, (λ h. ground arith, λ h. ground arith))
