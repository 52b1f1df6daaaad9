-- ===== src/SiteAvoid.antt =====
-- daemon/siteavoid.go: members that failed a site are tried last for it. Records are values of
-- their map, times are nanoseconds with 0 the zero time and given to an operation, which is atomic.
-- The receiver is not nil.
pub mod Order
pub mod Verdicts
use em_wall.Prelude.{
  ℕ, zero, suc, ◌+◌, Bool, true, false, not, ◌&&◌, ◌||◌, Option, none, some, List, [], ◌∷◌, ◌++◌,
  ◌==◌, Text, text_eq, ltb, leb, if◌then◌else◌, lookup, insert, delete, prune, length,
}

abbrev pub avoid_strikes : ℕ
avoid_strikes = 2

abbrev pub avoid_window : ℕ
avoid_window = 600000000000

abbrev pub avoid_for : ℕ
avoid_for = 900000000000

abbrev pub sweep_interval : ℕ
sweep_interval = 60000000000

pub record AvoidRecord : Type 0 where
  pub strikes : ℕ
  pub first_at : ℕ
  pub avoid_until : ℕ

pub record SiteAvoid : Type 0 where
  pub recs : List (Text × AvoidRecord)
  pub last_sweep : ℕ

abbrev pub new_site_avoid : SiteAvoid
new_site_avoid = record { recs = []; last_sweep = 0 }

-- site + "|" + member key; 124 is the code of "|"
abbrev pub record_id : Text → Text → Text
record_id site key = site ++ (124 ∷ key)

abbrev pub time_or : Option AvoidRecord → ℕ
time_or none = 0
time_or (some r) = r.avoid_until

-- outside its strike window, and not avoided
abbrev pub expired : ℕ → AvoidRecord → Bool
expired now r = ltb (r.first_at + avoid_window) now && not (ltb now r.avoid_until)

unfoldable pub sweep_locked : SiteAvoid → ℕ → SiteAvoid
unfolding prune
sweep_locked a now =
    if ltb now (a.last_sweep + sweep_interval)
    then a
    else record a { recs = prune (expired now) a.recs; last_sweep = now }

-- the record that a strike counts in
unfoldable pub window : Option AvoidRecord → ℕ → AvoidRecord
window none now = record { strikes = 0; first_at = now; avoid_until = time_or none }
window (some r) now =
    if ltb (r.first_at + avoid_window) now
    then record { strikes = 0; first_at = now; avoid_until = time_or (some r) }
    else r

-- one strike of a record, and whether it became avoided
unfoldable pub strike_record : AvoidRecord → ℕ → AvoidRecord × Bool
strike_record r now =
    if leb avoid_strikes (r.strikes + 1)
    then (
      record { strikes = 0; first_at = now; avoid_until = now + avoid_for },
      not (ltb now r.avoid_until),
    )
    else (record r { strikes = r.strikes + 1 }, false)

-- the loop of strike over keys; `first` is i == 0
unfoldable pub strike_keys : SiteAvoid → Text → ℕ → Bool → List Text → SiteAvoid × Bool
unfolding lookup insert strike_record window
strike_keys a site now first [] = (a, false)
strike_keys a site now first (k ∷ keys) =
    let (r, became) = strike_record (window (lookup (record_id site k) a.recs) now) now in
    let skipped = strike_keys a site now false keys in
    let (b, later) =
      strike_keys (record a { recs = insert (record_id site k) r a.recs }) site now false keys in
    if k == [] then skipped else (b, (first && became) || later)

unfoldable pub strike : SiteAvoid → Text → List Text → ℕ → SiteAvoid × Bool
unfolding strike_keys sweep_locked
strike a site keys now =
    if site == [] then (a, false) else strike_keys (sweep_locked a now) site now true keys

unfoldable pub clear_keys : SiteAvoid → Text → List Text → SiteAvoid
unfolding delete
clear_keys a site [] = a
clear_keys a site (k ∷ keys) =
    clear_keys (if k == [] then a else record a { recs = delete (record_id site k) a.recs }) site
      keys

unfoldable pub clear : SiteAvoid → Text → List Text → SiteAvoid
unfolding clear_keys
clear a site keys = if site == [] then a else clear_keys a site keys

unfoldable pub avoided_locked : SiteAvoid → Text → ℕ → List Text → Bool
unfolding lookup
avoided_locked a site now [] = false
avoided_locked a site now (k ∷ keys) =
    let rest = avoided_locked a site now keys in
    if k == [] then rest else elim (lookup (record_id site k) a.recs) [
      | none ↦ rest
      | some r ↦ ltb now r.avoid_until || rest
    ]

-- the names that are not avoided, and those that are, each in the ranking's order
unfoldable pub part : SiteAvoid → Text → ℕ → (Text → List Text) → List Text → List Text × List Text
unfolding avoided_locked
part a site now keys_of [] = ([], [])
part a site now keys_of (n ∷ ranked) =
    let (fine, avoided) = part a site now keys_of ranked in
    if avoided_locked a site now (keys_of n) then (fine, n ∷ avoided) else (n ∷ fine, avoided)

unfoldable pub demote : SiteAvoid → Text → List Text → (Text → List Text) → ℕ → List Text
unfolding part
demote a site ranked keys_of now =
    if site == [] || ltb (length ranked) 2 || leb (length a.recs) 0
    then ranked
    else let (fine, avoided) = part a site now keys_of ranked in
      if leb (length avoided) 0 || leb (length fine) 0 then ranked else fine ++ avoided

unfoldable pub reset : SiteAvoid → SiteAvoid
reset a = record a { recs = [] }
