-- ===== src/Tests/Proxies.antt =====
-- The table of proxy mappings, at one and two addresses.
use em_wall.Prelude.{◌≡◌, text_eq, refl, some, [], ◌∷◌, Text, codes, lookup}
use em_wall.ProxyTable.{Table, record_ip, sweep_expired, find}
use em_wall.ProxyTable.Index.{IsIndexed, member}
use em_wall.ProxyTable.Expiry.{sweep_expired_lem, record_ip_lem}

abbrev table : Table
table = record { by_ip = []; by_rule = []; min_ttl = 60 }

abbrev address : Text
address = codes "203.0.113.9"

abbrev host : Text
host = codes "web.example"

abbrev proxy : Text
proxy = codes "xray-a"

table-IsIndexed : IsIndexed table
unfolding member lookup
table-IsIndexed = record { at = λ rule key. refl; keys = tt }

recorded-IsIndexed : IsIndexed (record_ip table 10 (some address) host (proxy ∷ []) 5 7)
recorded-IsIndexed = (record_ip_lem table 10 address host proxy [] 5 7 table-IsIndexed).0

sweep_expired_lem_example :
    IsIndexed (sweep_expired (record_ip table 10 (some address) host (proxy ∷ []) 5 7) 90).0
    × ((k : Text)
        → lookup k
            (sweep_expired (record_ip table 10 (some address) host (proxy ∷ []) 5 7) 90).0.by_ip
          ≡ find (record_ip table 10 (some address) host (proxy ∷ []) 5 7) 90 (some k))
sweep_expired_lem_example =
    sweep_expired_lem (record_ip table 10 (some address) host (proxy ∷ []) 5 7) 90
      recorded-IsIndexed
