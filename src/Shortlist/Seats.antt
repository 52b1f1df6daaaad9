-- ===== src/Shortlist/Seats.antt =====
-- Who has a seat on a shortlist.
use em_wall.Prelude.{◌≡◌, true, false, List, Text, text_eq, nat_eq, is_listed}
use em_wall.Shortlist.{Scores, score_of, has_score}
use em_wall.Shortlist.Head.{ClearlyBeats}

-- No member that qualifies and has no seat clearly beats one with a seat.
abbrev pub NoneBeats : Scores → List Text → Type 0
NoneBeats scores seats =
    (o k : Text)
    → has_score scores o ≡ true
    → is_listed o seats ≡ false
    → is_listed k seats ≡ true
    → ¬ (ClearlyBeats (score_of scores o) (score_of scores k))
