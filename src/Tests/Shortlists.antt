-- ===== src/Tests/Shortlists.antt =====
-- A shortlist of two, and a third member.
use em_wall.Prelude.{◌≡◌, refl, some, [], ◌∷◌, Text, codes, lookup, text_eq, text_beq}
use em_wall.Shortlist.{Scores, pick_shortlist}

abbrev near : Text
near = codes "near"

abbrev mid : Text
mid = codes "mid"

abbrev far : Text
far = codes "far"

-- 190, 100 and 145 milliseconds: the second member of the shortlist clearly beats the head
abbrev scores : Scores
scores = (near, 190000000) ∷ (far, 100000000) ∷ (mid, 145000000) ∷ []

-- a member that is clearly better takes the weakest seat
displaced :
    pick_shortlist (near ∷ far ∷ []) ((near, 90000000) ∷ (far, 900000000) ∷ (mid, 80000000) ∷ []) 2
    ≡ some (near ∷ mid ∷ [])
unfolding pick_shortlist lookup text_beq
displaced = refl
