-- ===== src/Rules/Index/Addresses.antt =====
-- The index answers for addresses as the scan does.
use em_wall.Prelude.{
  ◌≡◌, refl, ap, ◌∙◌, List, [], ◌∷◌, ◌++◌, arith, Bool-cases, Option-cases, inl, inr,
}
use em_wall.Net.{Ip, Parsers}
use em_wall.Rules
use em_wall.Rules.{Rule, Best, no_best, parse_cidr, scan_ip_step, scan_ip}
use em_wall.Rules.Index
use em_wall.Rules.Index.{Index, IpRule, empty, find_ip, add_name, add, add_all, new_index}

find_ip-append :
    (ip : Ip) (xs ys : List IpRule) (b : Best)
    → find_ip ip b (xs ++ ys) ≡ find_ip ip (find_ip ip b xs) ys
unfolding find_ip
find_ip-append ip [] ys b = refl
find_ip-append ip (x ∷ xs) ys b = find_ip-append ip xs ys _

ips-add_name : (ix : Index) (r : Rule) → (add_name ix r).ips ≡ ix.ips
unfolding add_name
ips-add_name ix r = ground arith

module _ (net : Parsers) (ip : Ip) where
  find_ip-add :
      (ix : Index) (r : Rule)
      → find_ip ip no_best (add net ix r).ips ≡ scan_ip_step net ip (find_ip ip no_best ix.ips) r
  unfolding add scan_ip_step
  find_ip-add ix r = elim (Bool-cases r.enabled) [
    | inr off ↦ simp off
    | inl live ↦ elim (Option-cases (parse_cidr net r.pattern)) [
      | inr (n, p) ↦ simp (live, p, find_ip-append) (unfold find_ip in refl)
      | inl p ↦ simp (live, p, ips-add_name)
    ]
  ]

  agrees :
      (ix : Index) (rs : List Rule)
      → find_ip ip no_best (add_all net ix rs).ips ≡ scan_ip net ip (find_ip ip no_best ix.ips) rs
  unfolding add_all scan_ip
  agrees ix [] = refl
  agrees ix (r ∷ rs) = agrees (add net ix r) rs ∙ ap (λ b. scan_ip net ip b rs) (find_ip-add ix r)

  -- An index built from any rules gives, for every address, the rule that the scan of the whole
  -- rule list gives.
  pub most_specific_ip-new_index :
      (rs : List Rule)
      → Index.most_specific_ip (new_index net rs) ip ≡ Rules.most_specific_ip net rs ip
  unfolding Index.most_specific_ip new_index Rules.most_specific_ip
  most_specific_ip-new_index rs =
      ap (λ b. b.best) (agrees empty rs ∙ ap (λ b. scan_ip net ip b rs) start)
    where
      start : find_ip ip no_best empty.ips ≡ no_best
      start = unfold find_ip in refl
