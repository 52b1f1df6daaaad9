-- ===== src/Shortlist.antt =====
-- daemon/xray_shortlist.go: the few members of a stable pool that carry its connections. The smoothed
-- score of a member, which the code computes in floats from this round's measurement and from the old
-- score, 0 where there is none, is a parameter: none for a member that does not qualify. The maps of
-- scores are ranged over in the order of their lists, and a shortlist has one seat or more.
pub mod Qualified
pub mod Head
pub mod Seats
use em_wall.Prelude.{
  ℕ, zero, suc, ◌+◌, ◌-◌, ◌*◌, Bool, true, false, not, ◌&&◌, ◌||◌, Option, none, some, List, [],
  ◌∷◌, ◌++◌, Text, ◌==◌, text_eq, nat_eq, ltb, leb, length, lookup, insert, delete, is_listed,
  if◌then◌else◌,
}
use em_wall.Text.{text_less}
use em_wall.Strategy.Agile.{same_texts}

abbrev pub margin_floor : ℕ
margin_floor = 50000000

abbrev pub Scores : Type 0
Scores = List (Text × ℕ)

abbrev pub or_zero : Option ℕ → ℕ
or_zero none = 0
or_zero (some c) = c

-- scores[k]
unfoldable pub score_of : Scores → Text → ℕ
unfolding lookup
score_of scores k = or_zero (lookup k scores)

abbrev pub is_some : Option ℕ → Bool
is_some none = false
is_some (some c) = true

unfoldable pub has_score : Scores → Text → Bool
unfolding lookup
has_score scores k = is_some (lookup k scores)

-- beatsShortlisted; the fraction is a quarter. A gain below 0 is below the floor.
unfoldable pub beats_shortlisted : ℕ → ℕ → Bool
beats_shortlisted challenger incumbent =
    leb margin_floor (incumbent - challenger) && leb incumbent (4 * (incumbent - challenger))

-- the incumbents that qualify, while there are seats
unfoldable pub keep_seats : Scores → ℕ → List Text → List Text
unfolding has_score
keep_seats scores n [] = []
keep_seats scores zero (k ∷ old) = []
keep_seats scores (suc n) (k ∷ old) =
    let same = keep_seats scores (suc n) old in
    let fewer = keep_seats scores n old in if has_score scores k then k ∷ fewer else same

unfoldable pub outsiders : List Text → Scores → List Text
outsiders seats [] = []
outsiders seats ((k, c) ∷ scores) =
    let rest = outsiders seats scores in if is_listed k seats then rest else k ∷ rest

unfoldable pub out_less : Scores → Text → Text → Bool
unfolding score_of text_less
out_less scores a b =
    if not (score_of scores a == score_of scores b)
    then ltb (score_of scores a) (score_of scores b)
    else text_less a b

-- sort.Slice
unfoldable pub insert_out : Scores → Text → List Text → List Text
unfolding out_less
insert_out scores k [] = k ∷ []
insert_out scores k (j ∷ outs) =
    let rest = insert_out scores k outs in if out_less scores j k then j ∷ rest else k ∷ j ∷ outs

unfoldable pub sort_outs : Scores → List Text → List Text
unfolding insert_out
sort_outs scores [] = []
sort_outs scores (k ∷ outs) = insert_out scores k (sort_outs scores outs)

-- the free seats, and the outsiders that are left
unfoldable pub fill_seats : ℕ → List Text → List Text → List Text × List Text
fill_seats zero next outs = (next, outs)
fill_seats (suc n) next [] = (next, [])
fill_seats (suc n) next (o ∷ outs) = fill_seats n (next ++ (o ∷ [])) outs

-- the seat with the highest score, and the score; `i` is the index of the next seat
unfoldable pub weakest_from : Scores → ℕ → ℕ → ℕ → List Text → ℕ × ℕ
unfolding score_of
weakest_from scores weak top i [] = (weak, top)
weakest_from scores weak top i (k ∷ seats) =
    let higher = weakest_from scores i (score_of scores k) (suc i) seats in
    let same = weakest_from scores weak top (suc i) seats in
    if ltb top (score_of scores k) then higher else same

abbrev pub weakest : Scores → List Text → ℕ × ℕ
weakest scores [] = (0, 0)
weakest scores (k ∷ seats) = weakest_from scores 0 (score_of scores k) 0 (k ∷ seats)

abbrev pub replace_at : ℕ → Text → List Text → List Text
replace_at i v [] = []
replace_at zero v (k ∷ seats) = v ∷ seats
replace_at (suc i) v (k ∷ seats) = k ∷ replace_at i v seats

-- the best outsider takes the weakest seat while it clearly beats it
unfoldable pub displace : Scores → List Text → List Text → List Text
unfolding weakest_from beats_shortlisted
displace scores next [] = next
displace scores next (o ∷ outs) =
    let (weak, top) = weakest scores next in
    let again = displace scores (replace_at weak o next) outs in
    if beats_shortlisted (score_of scores o) top then again else next

-- the seat with the lowest score, its member and the score
unfoldable pub best_from : Scores → ℕ → Text → ℕ → List Text → ℕ × Text
unfolding score_of
best_from scores best at i [] = (best, at)
best_from scores best at i (k ∷ seats) =
    let lower = best_from scores i k (suc i) seats in
    let same = best_from scores best at (suc i) seats in
    if ltb (score_of scores k) (score_of scores at) then lower else same

-- the best member takes the head if it is clearly better
unfoldable pub promote : Scores → List Text → List Text
unfolding best_from beats_shortlisted
promote scores [] = []
promote scores (k ∷ seats) =
    let (best, at) = best_from scores 0 k 0 (k ∷ seats) in
    if not (best == 0) && beats_shortlisted (score_of scores at) (score_of scores k)
    then replace_at 0 at (replace_at best k (k ∷ seats))
    else k ∷ seats

-- pickShortlist
unfoldable pub pick_shortlist : List Text → Scores → ℕ → Option (List Text)
unfolding keep_seats outsiders sort_outs fill_seats displace promote
pick_shortlist old [] size = none
pick_shortlist old ((j, c) ∷ scores) size =
    let all = (j, c) ∷ scores in
    let kept = keep_seats all size old in
    let (next, outs) = fill_seats (size - length kept) kept (sort_outs all (outsiders kept all)) in
    some (promote all (displace all next outs))

abbrev pub any_good : List Text → Scores → Bool
any_good broken [] = false
any_good broken ((k, c) ∷ scores) = not (is_listed k broken) || any_good broken scores

unfoldable pub delete_broken : List Text → Scores → Scores
unfolding delete
delete_broken [] scores = scores
delete_broken (k ∷ broken) scores = delete_broken broken (delete k scores)

-- dropBroken
unfoldable pub drop_broken : Scores → List Text → Scores
unfolding delete_broken
drop_broken scores broken = if any_good broken scores then delete_broken broken scores else scores

-- what observe reads of a slot
pub record ShortSlot : Type 0 where
  pub index : ℕ
  pub master : Text
  pub never_shortlists : Bool
  pub members : List Text
  pub broken : List Text

pub record Shortlists : Type 0 where
  pub picks : List (Text × List Text)
  pub smooth : List (Text × Scores)

abbrev pub picks_at : Option (List Text) → List Text
picks_at none = []
picks_at (some keys) = keys

abbrev pub scores_at : Option Scores → Scores
scores_at none = []
scores_at (some scores) = scores

-- SlotShortlistSize
abbrev pub shortlist_size : ℕ
shortlist_size = 2

-- preferred
unfoldable pub preferred : Shortlists → Text → List Text → List Text
unfolding lookup
preferred sl master members =
    if leb (length members) shortlist_size then [] else picks_at (lookup master sl.picks)

-- this round's scores of the members, put into `scores`
unfoldable pub round_scores : (ℕ → Text → ℕ → Option ℕ) → ℕ → Scores → List Text → Scores → Scores
unfolding score_of insert
round_scores score i prev [] scores = scores
round_scores score i prev (k ∷ keys) scores = elim (score i k (score_of prev k)) [
  | none ↦ round_scores score i prev keys scores
  | some c ↦ round_scores score i prev keys (insert k c scores)
]

pub record ShortChange : Type 0 where
  pub master : Text
  pub from : List Text
  pub to : List Text

-- a slot that is too small for a shortlist
unfoldable pub observe_small : ShortSlot → List Text → Shortlists → Shortlists × List ShortChange
unfolding delete
observe_small slot [] sl = (sl, [])
observe_small slot (k ∷ old) sl = (
  record sl { picks = delete slot.master sl.picks },
  record { master = slot.master; from = k ∷ old; to = [] } ∷ [],
)

abbrev pub put_pick :
    Text → List Text → Option (List Text) → Shortlists → Shortlists × List ShortChange
put_pick master old none sl = (sl, [])
put_pick master old (some next) sl = if same_texts next old then (sl, []) else (
  record sl { picks = insert master next sl.picks },
  record { master = master; from = old; to = next } ∷ [],
)

-- one slot of observe
unfoldable pub observe_slot :
    (ℕ → Text → ℕ → Option ℕ) → ShortSlot → Shortlists → Shortlists × List ShortChange
unfolding lookup insert observe_small round_scores drop_broken pick_shortlist
observe_slot score slot sl =
    let old = picks_at (lookup slot.master sl.picks) in
    let prev = scores_at (lookup slot.master sl.smooth) in
    let scores = drop_broken (round_scores score slot.index prev slot.members []) slot.broken in
    if slot.never_shortlists
    then (sl, [])
    else if leb (length slot.members) shortlist_size
    then observe_small slot old sl
    else put_pick slot.master old (pick_shortlist old scores shortlist_size)
        (record sl { smooth = insert slot.master scores sl.smooth })

unfoldable pub observe_slots :
    (ℕ → Text → ℕ → Option ℕ) → List ShortSlot → Shortlists → Shortlists × List ShortChange
unfolding observe_slot
observe_slots score [] sl = (sl, [])
observe_slots score (slot ∷ slots) sl =
    let (one, changes) = observe_slot score slot sl in
    let (after, later) = observe_slots score slots one in (after, changes ++ later)

abbrev pub is_live : Text → List ShortSlot → Bool
is_live m [] = false
is_live m (slot ∷ slots) = (not slot.never_shortlists && slot.master == m) || is_live m slots

unfoldable pub keep_live {ℓ} : {V : Type ℓ} → List ShortSlot → List (Text × V) → List (Text × V)
keep_live slots [] = []
keep_live slots ((m, v) ∷ entries) =
    let rest = keep_live slots entries in if is_live m slots then (m, v) ∷ rest else rest

-- observe
unfoldable pub observe :
    (ℕ → Text → ℕ → Option ℕ) → List ShortSlot → Shortlists → Shortlists × List ShortChange
unfolding observe_slots keep_live
observe score slots sl =
    let (after, changes) = observe_slots score slots sl in
    (record { picks = keep_live slots after.picks; smooth = keep_live slots after.smooth }, changes)
