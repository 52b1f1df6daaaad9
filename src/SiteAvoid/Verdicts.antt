-- ===== src/SiteAvoid/Verdicts.antt =====
-- When a member is avoided for a site, and when no longer.
use em_wall.Prelude.{
  ℕ, ◌+◌, ◌≤◌, ◌≡◌, ◌≢◌, refl, sym, subst, true, false, none, some, List, [], ◌∷◌, ◌==◌, Text,
  text_eq, text_beq_iff, ltb, if◌then◌else◌, lookup, delete, lookup-insert, lookup-delete,
  lookup-prune, IsMap, insert-IsMap, prune-IsMap, arith,
}
use em_wall.SiteAvoid.{
  avoid_window, avoid_for, AvoidRecord, SiteAvoid, record_id, expired, sweep_locked, window,
  strike_record, strike_keys, strike, clear_keys, clear, avoided_locked,
}

-- A member's record that was forgotten stays so.
clear_keys-none :
    (a : SiteAvoid) (site : Text) (keys : List Text) (id : Text)
    → lookup id a.recs ≡ none
    → lookup id (clear_keys a site keys).recs ≡ none
unfolding clear_keys
clear_keys-none a site [] id h = h
clear_keys-none a site (k ∷ keys) id h =
    clear_keys-none (if k == [] then a else record a { recs = delete (record_id site k) a.recs })
      site keys id (ground (arith, lookup-delete (record_id site k) id a.recs))

-- Each of the keys has no record.
abbrev Forgotten : SiteAvoid → Text → List Text → Type 0
Forgotten a site [] = Unit
Forgotten a site (k ∷ keys) =
    (k ≢ [] → lookup (record_id site k) a.recs ≡ none) × Forgotten a site keys

clear_keys-Forgotten :
    (keys : List Text) (a : SiteAvoid) (site : Text) → Forgotten (clear_keys a site keys) site keys
unfolding clear_keys
clear_keys-Forgotten [] a site = tt
clear_keys-Forgotten (k ∷ keys) a site =
    let b = if k == [] then a else record a { recs = delete (record_id site k) a.recs } in
    (
      λ named. clear_keys-none b site keys (record_id site k) (
          ground (
            arith,
            lookup-delete (record_id site k) (record_id site k) a.recs,
            text_beq_iff k [],
            text_beq_iff (record_id site k) (record_id site k),
          )),
      clear_keys-Forgotten keys b site,
    )

avoided-Forgotten :
    (a : SiteAvoid) (site : Text) (now : ℕ) (keys : List Text)
    → Forgotten a site keys
    → avoided_locked a site now keys ≡ false
unfolding avoided_locked
avoided-Forgotten a site now [] h = refl
avoided-Forgotten a site now (k ∷ keys) h =
    ground (arith, avoided-Forgotten a site now keys h.1, h.0, text_beq_iff k [])

-- A member that just carried a site is not avoided for it, at any time, under any of the keys that
-- were cleared, however often it failed the site before.
pub avoided-clear :
    (a : SiteAvoid) (site : Text) (now : ℕ) (keys : List Text)
    → site ≢ []
    → avoided_locked (clear a site keys) site now keys ≡ false
unfolding clear
avoided-clear a site now keys named =
    let open_ : clear a site keys ≡ clear_keys a site keys = ground (arith, text_beq_iff site []) in
    subst (λ b. avoided_locked b site now keys ≡ false) (sym open_)
      (avoided-Forgotten (clear_keys a site keys) site now keys (clear_keys-Forgotten keys a site))

-- What one strike of one member leaves.
lookup-strike :
    (a : SiteAvoid) (site key : Text) (now : ℕ)
    → IsMap a.recs
    → site ≢ []
    → key ≢ []
    → let r = window (lookup (record_id site key) (sweep_locked a now).recs) now in
      (lookup (record_id site key) (strike a site (key ∷ []) now).0.recs
        ≡ some (strike_record r now).0)
      × ((strike a site (key ∷ []) now).1 ≡ (strike_record r now).1)
unfolding strike strike_keys
lookup-strike a site key now m named keyed =
    let b = sweep_locked a now in
    let id = record_id site key in
    let r = (strike_record (window (lookup id b.recs) now) now).0 in
    (
      ground (
        arith,
        lookup-insert id id r b.recs,
        text_beq_iff id id,
        text_beq_iff site [],
        text_beq_iff key [],
      ),
      ground (arith, text_beq_iff site [], text_beq_iff key []),
    )

sweep_locked-IsMap : (a : SiteAvoid) (now : ℕ) → IsMap a.recs → IsMap (sweep_locked a now).recs
unfolding sweep_locked
sweep_locked-IsMap a now m = ground (arith, prune-IsMap (expired now) a.recs m)

-- The records that a strike leaves hold a key once.
strike-IsMap :
    (a : SiteAvoid) (site key : Text) (now : ℕ)
    → IsMap a.recs
    → IsMap (strike a site (key ∷ []) now).0.recs
unfolding strike strike_keys
strike-IsMap a site key now m =
    let b = sweep_locked a now in
    let n = sweep_locked-IsMap a now m in
    let r = (strike_record (window (lookup (record_id site key) b.recs) now) now).0 in
    ground (arith, insert-IsMap (record_id site key) r b.recs n)

-- The sweep forgets no record inside its strike window, and makes none.
lookup-sweep_locked :
    (a : SiteAvoid) (id : Text) (now : ℕ)
    → IsMap a.recs
    → (lookup id a.recs ≡ none → lookup id (sweep_locked a now).recs ≡ none)
      × ((r : AvoidRecord)
          → lookup id a.recs ≡ some r
          → now ≤ r.first_at + avoid_window
          → lookup id (sweep_locked a now).recs ≡ some r)
unfolding sweep_locked
lookup-sweep_locked a id now m = (
  λ h. ground (arith, lookup-prune (expired now) id a.recs m),
  λ r h le. ground (arith, lookup-prune (expired now) id a.recs m),
)

-- On a map that holds a key once, for a site and a member, both with a name, without a record: one
-- failure does not make the member avoided; a second one within the strike window reports that it
-- became avoided, and from then on it is avoided for the site for exactly fifteen minutes.
pub avoided-strike :
    (a : SiteAvoid) (site key : Text) (s t u : ℕ)
    → IsMap a.recs
    → site ≢ []
    → key ≢ []
    → lookup (record_id site key) a.recs ≡ none
    → s ≤ t
    → t ≤ s + avoid_window
    → t ≤ u
    → let once = strike a site (key ∷ []) s in
      let twice = strike once.0 site (key ∷ []) t in
      ((once.1 ≡ false) × (avoided_locked once.0 site s (key ∷ []) ≡ false))
      × ((twice.1 ≡ true) × (avoided_locked twice.0 site u (key ∷ []) ≡ ltb u (t + avoid_for)))
unfolding avoided_locked strike_record window
avoided-strike a site key s t u m named keyed none_ le win le2 =
    let id = record_id site key in
    let once = (strike a site (key ∷ []) s).0 in
    let first : AvoidRecord = record { strikes = 1; first_at = s; avoid_until = 0 } in
    let start = (lookup-sweep_locked a id s m).0 none_ in
    let (at_s, said_s) = lookup-strike a site key s m named keyed in
    let is_first : lookup id once.recs ≡ some first = ground arith in
    let m2 = strike-IsMap a site key s m in
    let kept = (lookup-sweep_locked once id t m2).1 first is_first win in
    let (at_t, said_t) = lookup-strike once site key t m2 named keyed in
    (
      (ground arith, ground (arith, text_beq_iff key [])),
      (ground arith, ground (arith, text_beq_iff key [])),
    )
