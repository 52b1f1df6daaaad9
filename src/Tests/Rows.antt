-- ===== src/Tests/Rows.antt =====
-- A flush to a table with two rows.
use em_wall.Prelude.{
  ◌≡◌, refl, Bool, true, false, some, none, [], ◌∷◌, Text, codes, lookup, text_eq, text_beq, IsMap,
}
use em_wall.FakeIp.{StoredLease, Pool}
use em_wall.FakeIp.Store.{flush}
use em_wall.FakeIp.Store.Written.{NoneBroken, IsBatch, wanted, unless_taken, flush_lem}
use em_wall.FakeIp.Store.Table.{IsTable, find_row}

abbrev web : Text
web = codes "web.example"

abbrev mail : Text
mail = codes "mail.example"

abbrev web_lease : StoredLease
web_lease = record { host = web; ip = some 5; expires_at = 90 }

abbrev mail_lease : StoredLease
mail_lease = record { host = mail; ip = some 5; expires_at = 80 }

-- the slot of `mail` was reclaimed for `web`
abbrev waiting : Pool
waiting = record {
  base = 0;
  size = 16;
  cursor = 6;
  ttl = 90;
  by_host = [];
  by_ip = [];
  fresh = 0;
  has_store = true;
  heap = λ r. record { ip = 0; host = []; expiry = 0; stored = 0 };
  pending = (web, some web_lease) ∷ (mail, none) ∷ [];
}

abbrev never : Text → Bool
never h = false

never_broken : NoneBroken never
never_broken h = refl

waiting-IsMap : IsMap waiting.pending
unfolding lookup text_beq
waiting-IsMap = (refl, (refl, tt))

waiting-IsBatch : IsBatch waiting.pending
waiting-IsBatch = (refl, λ e. cc, refl, tt)

old-IsTable : IsTable (mail_lease ∷ [])
old-IsTable = (refl, tt)

flush_lem_example :
    ((flush never waiting (mail_lease ∷ [])).0.pending ≡ [])
    × IsTable (flush never waiting (mail_lease ∷ [])).1
    × (find_row web (flush never waiting (mail_lease ∷ [])).1
        ≡ wanted
            (lookup web waiting.pending)
            (unless_taken waiting.pending (find_row web (mail_lease ∷ []))))
flush_lem_example =
    flush_lem never never_broken waiting (mail_lease ∷ []) web refl waiting-IsMap waiting-IsBatch
      old-IsTable

reclaimed : (flush never waiting (mail_lease ∷ [])).1 ≡ web_lease ∷ []
unfolding flush text_beq
reclaimed = refl
