-- ===== src/SiteAvoid/Order.antt =====
-- The order in which the members of a set are tried for a site.
use em_wall.Prelude.{
  length-zero, ℕ, ◌<◌, ◌≡◌, ◌≢◌, refl, ap, Bool, false, not, List, [], ◌∷◌, ◌++◌, Text, text_eq,
  text_beq_iff, if◌then◌else◌, lookup, length, arith,
}
use em_wall.SiteAvoid.{SiteAvoid, avoided_locked, part, demote}

-- The members of a list that pass a test, in its order.
abbrev pub keep : (Text → Bool) → List Text → List Text
keep test [] = []
keep test (n ∷ names) = if test n then n ∷ keep test names else keep test names

++-nil : (xs : List Text) → xs ++ [] ≡ xs
++-nil [] = refl
++-nil (x ∷ xs) = ap (λ t. x ∷ t) (++-nil xs)

module _ (a : SiteAvoid) (site : Text) (keys_of : Text → List Text) (now : ℕ) where
  abbrev pub avoids : Text → Bool
  avoids n = avoided_locked a site now (keys_of n)

  abbrev pub favours : Text → Bool
  favours n = not (avoided_locked a site now (keys_of n))

  part-keep :
      (ranked : List Text)
      → part a site now keys_of ranked ≡ (keep favours ranked, keep avoids ranked)
  unfolding part
  part-keep [] = refl
  part-keep (n ∷ ranked) = ground (arith, part-keep ranked)

  keep_none : (ranked : List Text) → keep avoids ranked ≡ [] → keep favours ranked ≡ ranked
  keep_none [] h = refl
  keep_none (n ∷ ranked) h = ground (arith, keep_none ranked)

  keep_all : (ranked : List Text) → keep favours ranked ≡ [] → keep avoids ranked ≡ ranked
  keep_all [] h = refl
  keep_all (n ∷ ranked) h = ground (arith, keep_all ranked)

  unknown : (keys : List Text) → a.recs ≡ [] → avoided_locked a site now keys ≡ false
  unfolding avoided_locked lookup
  unknown [] h = refl
  unknown (k ∷ keys) h = ground (arith, unknown keys h)

  keep_unknown : (ranked : List Text) → a.recs ≡ [] → keep avoids ranked ≡ []
  keep_unknown [] h = refl
  keep_unknown (n ∷ ranked) h = ground (arith, keep_unknown ranked h, unknown (keys_of n) h)

  keep_short :
      (ranked : List Text) → length ranked < 2 → keep favours ranked ++ keep avoids ranked ≡ ranked
  keep_short [] h = refl
  keep_short (n ∷ []) h = ground arith
  keep_short (n ∷ (m ∷ ranked)) h = ground arith

-- For a site, the ranking is always reordered to the members not avoided for it, followed by those
-- that are, each group in the ranking's order: the early returns (fewer than two members, no
-- records, a group that is empty) give the same.
pub demote_lem :
    (a : SiteAvoid) (site : Text) (ranked : List Text) (keys_of : Text → List Text) (now : ℕ)
    → site ≢ []
    → demote a site ranked keys_of now
      ≡ keep (favours a site keys_of now) ranked ++ keep (avoids a site keys_of now) ranked
unfolding demote
demote_lem a site ranked keys_of now named =
    let fine = keep (favours a site keys_of now) ranked in
    let avoided = keep (avoids a site keys_of now) ranked in
    let parts = part-keep a site keys_of now ranked in
    let no_recs = keep_unknown a site keys_of now ranked in
    let short = keep_short a site keys_of now ranked in
    let none_ = keep_none a site keys_of now ranked in
    let every = keep_all a site keys_of now ranked in
    ground (
      arith,
      ++-nil fine,
      ++-nil ranked,
      length-zero a.recs,
      length-zero avoided,
      length-zero fine,
      text_beq_iff site [],
    )
