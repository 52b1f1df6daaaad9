-- ===== src/Outbound.antt =====
-- core/xray/dialer.go, dialer_bulk.go, set.go and xray.go: references to outbounds, the fields that
-- list them, and sets of them; and the names of core/proxy/proxy.go, which has the same rules. A
-- reference's kind is a constructor for each of the three texts. Texts are ASCII.
pub mod Sets
pub mod Tokens
pub mod RoundTrip
pub mod Cycle
use em_wall.Prelude.{
  ℕ, zero, suc, ◌+◌, Bool, true, false, not, ◌&&◌, ◌||◌, Option, none, some, List, [], ◌∷◌, ◌++◌,
  Text, codes, ◌==◌, nat_eq, text_eq, ltb, leb, length, drop, if◌then◌else◌,
}
use em_wall.Text.{to_lower, trim_space, has_prefix, split, join, cut}

abbrev pub comma : ℕ
comma = b','

abbrev pub colon : ℕ
colon = b':'

unfoldable pub normalize_name : Text → Text
unfolding to_lower trim_space
normalize_name s = to_lower (trim_space s)

unfoldable pub name_byte : ℕ → Bool
name_byte c = (leb b'a' c && leb c b'z') || (leb b'0' c && leb c b'9') || c == b'-' || c == b'_'

unfoldable pub name_bytes : Text → Bool
unfolding name_byte
name_bytes [] = true
name_bytes (c ∷ s) = name_byte c && name_bytes s

-- ValidName
unfoldable pub valid_name : Text → Bool
unfolding normalize_name name_bytes
valid_name name =
    let n = normalize_name name in if n == [] || ltb 64 (length n) then false else name_bytes n

-- the loop of ParseInterface, after the split
unfoldable pub nonempty_parts : List Text → List Text
unfolding trim_space
nonempty_parts [] = []
nonempty_parts (p ∷ parts) =
    let rest = nonempty_parts parts in if trim_space p == [] then rest else trim_space p ∷ rest

-- ParseInterface, of a field with this prefix
unfoldable pub parse_interface : Text → Text → List Text
unfolding has_prefix split nonempty_parts
parse_interface prefix s =
    if has_prefix s prefix then nonempty_parts (split (drop (length prefix) s) comma) else []

abbrev pub xray_prefix : Text
xray_prefix = codes "xray:"

abbrev pub proxy_prefix : Text
proxy_prefix = codes "proxy:"

abbrev pub internal_proxy_prefix : Text
internal_proxy_prefix = codes "_xray_"

unfoldable pub internal_proxy_name : Text → Text
unfolding normalize_name
internal_proxy_name name = internal_proxy_prefix ++ normalize_name name

pub data Kind : Type 0 where
  xray xraysub proxy : Kind

abbrev pub kind_name : Kind → Text
kind_name xray = codes "xray"
kind_name xraysub = codes "xraysub"
kind_name proxy = codes "proxy"

-- the cases of ParseDialer's switch
unfoldable pub kind_of : Text → Option Kind
kind_of s =
    if s == codes "xray"
    then some xray
    else if s == codes "xraysub"
    then some xraysub
    else if s == codes "proxy"
    then some proxy
    else none

pub record DialerRef : Type 0 where
  pub kind : Kind
  pub name : Text

-- one item, between the commas; none is ErrInvalidDialer
unfoldable pub parse_parts : Option (Text × Text) → Option DialerRef
unfolding kind_of normalize_name valid_name
parse_parts none = none
parse_parts (some (kind, name)) = elim (kind_of (to_lower (trim_space kind))) [
  | none ↦ none
  | some k ↦
      if valid_name (normalize_name name)
      then some (record { kind = k; name = normalize_name name })
      else none
]

unfoldable pub parse_item : Text → Option DialerRef
unfolding cut parse_parts
parse_item p = parse_parts (cut p colon)

abbrev pub cons_ref : Option DialerRef → Option (List DialerRef) → Option (List DialerRef)
cons_ref none rest = none
cons_ref (some r) none = none
cons_ref (some r) (some rs) = some (r ∷ rs)

-- the loop over the items, which ends at the first error
unfoldable pub parse_items : List Text → Option (List DialerRef)
unfolding trim_space parse_item
parse_items [] = some []
parse_items (p ∷ parts) =
    let rest = parse_items parts in
    if trim_space p == [] then rest else cons_ref (parse_item (trim_space p)) rest

-- ParseDialer
unfoldable pub parse_dialer : Text → Option (List DialerRef)
unfolding trim_space split parse_items
parse_dialer s = if trim_space s == [] then some [] else parse_items (split (trim_space s) comma)

abbrev pub ref_text : DialerRef → Text
ref_text r = kind_name r.kind ++ (colon ∷ r.name)

abbrev pub ref_texts : List DialerRef → List Text
ref_texts [] = []
ref_texts (r ∷ refs) = ref_text r ∷ ref_texts refs

-- FormatDialer
unfoldable pub format_dialer : List DialerRef → Text
unfolding join
format_dialer refs = join (ref_texts refs) comma

abbrev pub kind_eqb : Kind → Kind → Bool
kind_eqb xray xray = true
kind_eqb xraysub xraysub = true
kind_eqb proxy proxy = true
kind_eqb _ _ = false

-- as a map key, a reference is its text or the pair of its fields: they tell the same apart
abbrev pub same_ref : DialerRef → DialerRef → Bool
same_ref a b = kind_eqb a.kind b.kind && a.name == b.name

abbrev pub is_seen : DialerRef → List DialerRef → Bool
is_seen r [] = false
is_seen r (q ∷ refs) = same_ref q r || is_seen r refs

-- dedupeRefs, with what was seen
unfoldable pub dedupe : List DialerRef → List DialerRef → List DialerRef
dedupe seen [] = []
dedupe seen (r ∷ refs) =
    let again = dedupe seen refs in
    let first = dedupe (r ∷ seen) refs in if is_seen r seen then again else r ∷ first

unfoldable pub dedupe_refs : List DialerRef → List DialerRef
unfolding dedupe
dedupe_refs refs = dedupe [] refs

pub data EditMode : Type 0 where
  replace_refs add_refs remove_refs : EditMode

abbrev pub without_refs : List DialerRef → List DialerRef → List DialerRef
without_refs gone [] = []
without_refs gone (r ∷ refs) =
    if is_seen r gone then without_refs gone refs else r ∷ without_refs gone refs

abbrev pub or_empty : Option (List DialerRef) → List DialerRef
or_empty none = []
or_empty (some refs) = refs

-- EditDialer; `mode` is none for a text that is no mode, which is an error
unfoldable pub edit_dialer : Text → Option EditMode → List DialerRef → Option Text
unfolding parse_dialer format_dialer dedupe_refs
edit_dialer current none refs = none
edit_dialer current (some replace_refs) refs = some (format_dialer (dedupe_refs refs))
edit_dialer current (some add_refs) refs =
    some (format_dialer (dedupe_refs (or_empty (parse_dialer current) ++ refs)))
edit_dialer current (some remove_refs) refs =
    some (format_dialer (dedupe_refs (without_refs refs (or_empty (parse_dialer current)))))
