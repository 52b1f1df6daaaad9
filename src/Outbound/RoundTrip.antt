-- ===== src/Outbound/RoundTrip.antt =====
-- Parsing reads back what formatting prints.
use em_wall.Prelude.{
  ◌≤◌, ◌≡◌, ◌≢◌, ◌∙◌, refl, ap, true, false, none, some, List, [], ◌∷◌, ◌++◌, Text, ◌==◌, nat_eq,
  text_eq, text_beq, text_beq_iff, length, if◌then◌else◌, All, arith,
}
use em_wall.Text.{is_space, trim_space, join, cut}
use em_wall.Outbound.{
  Kind, xray, xraysub, proxy, DialerRef, comma, colon, normalize_name, name_bytes, valid_name,
  kind_name, ref_text, ref_texts, parse_item, parse_parts, parse_items, parse_dialer, format_dialer,
}
use em_wall.Outbound.Tokens.{
  NoBlank, Lacks, All-append, trim_space-NoBlank, split-join, name_bytes-NoBlank, name_bytes-Lacks,
  normalize_name-name_bytes,
}

-- A reference as ParseDialer makes it: its name is of name bytes, and of 1 to 64 of them.
pub record IsCanonical (r : DialerRef) : Type 0 where
  pub bytes : name_bytes r.name ≡ true
  pub some_bytes : r.name ≢ []
  pub length_max : length r.name ≤ 64

valid_name-canonical : (r : DialerRef) → IsCanonical r → valid_name r.name ≡ true
unfolding valid_name
valid_name-canonical r v =
    let a = v.bytes in
    let b = v.length_max in
    let same = normalize_name-name_bytes r.name v.bytes in
    let named = text_beq_iff r.name [] in let nonempty = v.some_bytes in rw same (ground arith)

kind_NoBlank : (k : Kind) → NoBlank (kind_name k)
unfolding is_space
kind_NoBlank xray = (refl, (refl, (refl, (refl, tt))))
kind_NoBlank xraysub = (refl, (refl, (refl, (refl, (refl, (refl, (refl, tt)))))))
kind_NoBlank proxy = (refl, (refl, (refl, (refl, (refl, tt)))))

kind_Lacks : (k : Kind) → Lacks comma (kind_name k)
kind_Lacks xray = (omega arith, (omega arith, (omega arith, (omega arith, tt))))
kind_Lacks xraysub = (
  omega arith,
  (omega arith, (omega arith, (omega arith, (omega arith, (omega arith, (omega arith, tt)))))),
)
kind_Lacks proxy = (omega arith, (omega arith, (omega arith, (omega arith, (omega arith, tt)))))

ref_text-NoBlank : (r : DialerRef) → IsCanonical r → NoBlank (ref_text r)
unfolding is_space
ref_text-NoBlank r v =
    All-append (λ c. is_space c ≡ false) (kind_name r.kind) (colon ∷ r.name) (kind_NoBlank r.kind)
      (refl, name_bytes-NoBlank r.name v.bytes)

ref_text-Lacks : (r : DialerRef) → IsCanonical r → Lacks comma (ref_text r)
ref_text-Lacks r v =
    All-append (λ c. c ≢ comma) (kind_name r.kind) (colon ∷ r.name) (kind_Lacks r.kind)
      (omega arith, name_bytes-Lacks r.name v.bytes)

cut-ref_text :
    (k : Kind) (name : Text) → cut (kind_name k ++ (colon ∷ name)) colon ≡ some (kind_name k, name)
unfolding cut
cut-ref_text xray name = refl
cut-ref_text xraysub name = refl
cut-ref_text proxy name = refl

kind_of-kind_name :
    (k : Kind) (name : Text)
    → parse_parts (some (kind_name k, name)) ≡ (
        if valid_name (normalize_name name)
        then some (record { kind = k; name = normalize_name name })
        else none)
unfolding parse_parts text_beq
kind_of-kind_name xray name = refl
kind_of-kind_name xraysub name = refl
kind_of-kind_name proxy name = refl

parse_item-ref_text : (r : DialerRef) → IsCanonical r → parse_item (ref_text r) ≡ some r
unfolding parse_item
parse_item-ref_text r v =
    let same = normalize_name-name_bytes r.name v.bytes in
    let ok = valid_name-canonical r v in
    ap parse_parts (cut-ref_text r.kind r.name)
    ∙ kind_of-kind_name r.kind r.name
    ∙ (rw same (ground arith))

kind_nonempty : (k : Kind) (name : Text) → ((kind_name k ++ (colon ∷ name)) == []) ≡ false
unfolding text_beq
kind_nonempty xray name = refl
kind_nonempty xraysub name = refl
kind_nonempty proxy name = refl

kind_nonempty_append :
    (k : Kind) (name rest : Text) → (((kind_name k ++ (colon ∷ name)) ++ rest) == []) ≡ false
unfolding text_beq
kind_nonempty_append xray name rest = refl
kind_nonempty_append xraysub name rest = refl
kind_nonempty_append proxy name rest = refl

join-nonempty :
    (r : DialerRef) (refs : List DialerRef) → (join (ref_texts (r ∷ refs)) comma == []) ≡ false
unfolding join
join-nonempty r [] = kind_nonempty r.kind r.name
join-nonempty r (q ∷ refs) =
    kind_nonempty_append r.kind r.name (comma ∷ join (ref_texts (q ∷ refs)) comma)

parse_dialer-nil : parse_dialer [] ≡ some []
unfolding parse_dialer trim_space text_beq
parse_dialer-nil = refl

parse_items-ref_texts :
    (refs : List DialerRef) → All IsCanonical refs → parse_items (ref_texts refs) ≡ some refs
unfolding parse_items
parse_items-ref_texts [] h = refl
parse_items-ref_texts (r ∷ refs) h =
    let trimmed = trim_space-NoBlank (ref_text r) (ref_text-NoBlank r h.0) in
    let item = parse_item-ref_text r h.0 in
    let ih = parse_items-ref_texts refs h.1 in
    let some_text = kind_nonempty r.kind r.name in simp (trimmed, some_text, item, ih)

ref_texts-Lacks :
    (refs : List DialerRef) → All IsCanonical refs → All (Lacks comma) (ref_texts refs)
ref_texts-Lacks [] h = tt
ref_texts-Lacks (r ∷ refs) h = (ref_text-Lacks r h.0, ref_texts-Lacks refs h.1)

join-NoBlank :
    (refs : List DialerRef) → All IsCanonical refs → NoBlank (join (ref_texts refs) comma)
unfolding join is_space
join-NoBlank [] h = tt
join-NoBlank (r ∷ []) h = ref_text-NoBlank r h.0
join-NoBlank (r ∷ q ∷ refs) h =
    All-append (λ c. is_space c ≡ false) (ref_text r) (comma ∷ join (ref_texts (q ∷ refs)) comma)
      (ref_text-NoBlank r h.0) (refl, join-NoBlank (q ∷ refs) h.1)

-- References in canonical form, any number of them and in any order, are read back exactly from the
-- text that they are stored as.
pub parse_dialer-format_dialer :
    (refs : List DialerRef) → All IsCanonical refs → parse_dialer (format_dialer refs) ≡ some refs
unfolding parse_dialer format_dialer
parse_dialer-format_dialer [] h = parse_dialer-nil
parse_dialer-format_dialer (r ∷ refs) h =
    let whole = join (ref_texts (r ∷ refs)) comma in
    let trimmed = trim_space-NoBlank whole (join-NoBlank (r ∷ refs) h) in
    let parts = split-join comma (ref_text r) (ref_texts refs) (ref_texts-Lacks (r ∷ refs) h) in
    let items = parse_items-ref_texts (r ∷ refs) h in
    let named = join-nonempty r refs in simp (trimmed, named, parts, items)
