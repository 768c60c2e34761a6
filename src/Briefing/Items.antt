-- ===== src/Briefing/Items.antt =====
-- The sections of a briefing, from agent/services/briefing.py: what a source gives becomes a section
-- with its limits, and the items are numbered. The texts that rest on the html and re modules, and
-- the decimal text of a number, are parameters.
use Prim.Native.String.{◌++◌ as cat}
use evi.Common.{
  ℕ, suc, ◌+◌, ◌-◌, String, Bool, true, false, Option, none, some, List, [], ◌∷◌, ◌++◌, ltb, leb,
  if◌then◌else◌, is_some, length, take, map,
}

pub data Key : Type 0 where
  calendar tasks email whatsapp awaiting names : Key

-- GROUP_DEBTS, GROUP_PROMISES, GROUP_COMMITMENTS
pub data Group : Type 0 where
  debts promises commitments : Group

abbrev pub key_eq : Key → Key → Bool
key_eq calendar calendar = true
key_eq tasks tasks = true
key_eq email email = true
key_eq whatsapp whatsapp = true
key_eq awaiting awaiting = true
key_eq names names = true
key_eq _ _ = false

abbrev pub group_eq : Group → Group → Bool
group_eq debts debts = true
group_eq promises promises = true
group_eq commitments commitments = true
group_eq _ _ = false

-- An empty text stands for what is missing.
pub record Ref : Type 0 where
  pub kind : String
  pub id : String
  pub out_at : String
  pub rm_title : String

pub record BriefItem : Type 0 where
  pub n : ℕ
  pub text : String
  pub ref : Ref
  pub group : Option Group
  pub user : String

pub record Section : Type 0 where
  pub key : Key
  pub items : List BriefItem
  pub error : String
  pub more : ℕ
  pub group_more : List (Option Group × ℕ)
  pub collapsed : Bool
  pub total : ℕ
  pub reason : String
  pub in_banner : Bool

abbrev pub sum_of : List (Option Group × ℕ) → ℕ
sum_of [] = 0
sum_of ((g, n) ∷ rest) = n + sum_of rest

-- `Section.count`
unfoldable pub count_all : Section → ℕ
count_all s = if s.collapsed then s.total else length s.items + s.more + sum_of s.group_more

pub record Row : Type 0 where
  pub text : String
  pub ref : Ref
  pub user : String
  pub group : Option Group

abbrev pub section : Key → List BriefItem → String → ℕ → List (Option Group × ℕ) → String → Section
section key items error more group_more reason = record {
  key = key;
  items = items;
  error = error;
  more = more;
  group_more = group_more;
  collapsed = false;
  total = 0;
  reason = reason;
  in_banner = false;
}

-- What the call of a source gives: rows, a `_SourceError` with its text and reason, or another
-- exception with its text.
pub data Fetched : Type 0 where
  rows : List Row → Fetched
  source_error : String → String → Fetched
  crashes : String → Fetched

abbrev pub group_limit : ℕ
group_limit = 3

-- LIMITS
abbrev pub limit_of : ℕ → Key → ℕ
limit_of email_max calendar = 8
limit_of email_max tasks = 5
limit_of email_max email = email_max
limit_of email_max whatsapp = 5
limit_of email_max awaiting = 3
limit_of email_max names = 3

-- A group is the key of a dictionary, and so is the missing one.
abbrev pub same_group : Option Group → Option Group → Bool
same_group none none = true
same_group (some g) (some h) = group_eq g h
same_group _ _ = false

-- `counts[g] = counts.get(g, 0) + 1`, in the order of the first rows
abbrev pub count_up : Option Group → List (Option Group × ℕ) → List (Option Group × ℕ)
count_up g [] = (g, 1) ∷ []
count_up g ((h, n) ∷ rest) =
    let r = count_up g rest in if same_group g h then (h, suc n) ∷ rest else (h, n) ∷ r

abbrev pub count_of : Option Group → List (Option Group × ℕ) → ℕ
count_of g [] = 0
count_of g ((h, n) ∷ rest) = if same_group g h then n else count_of g rest

abbrev pub item_of : Row → BriefItem
item_of r = record { n = 0; text = r.text; ref = r.ref; group = r.group; user = r.user }

-- The items within the limit of their groups, and the numbers of rows of all groups.
unfoldable pub grouped :
    List Row → List (Option Group × ℕ) → List BriefItem × List (Option Group × ℕ)
grouped [] counts = ([], counts)
grouped (r ∷ rs) counts =
    let counts' = count_up r.group counts in
    let (items, totals) = grouped rs counts' in
    (if leb (count_of r.group counts') group_limit then item_of r ∷ items else items, totals)

abbrev pub over_limit : List (Option Group × ℕ) → List (Option Group × ℕ)
over_limit [] = []
over_limit ((g, n) ∷ rest) =
    let r = over_limit rest in if ltb group_limit n then (g, n - group_limit) ∷ r else r

abbrev pub is_grouped : List Row → Bool
is_grouped [] = false
is_grouped (r ∷ rs) = is_some r.group

unfoldable pub run_source : (String → String) → ℕ → Key → Fetched → Section
unfolding grouped
run_source cut email_max key (source_error text reason) = section key [] text 0 [] reason
run_source cut email_max key (crashes text) =
    section key [] (cat "falha inesperada (" (cat (cut text) ")")) 0 [] ""
run_source cut email_max key (rows rs) =
    if is_grouped rs
    then section key (grouped rs []).0 "" 0 (over_limit (grouped rs []).1) ""
    else section key
        (map (λ r. record (item_of r) { group = none }) (take (limit_of email_max key) rs)) ""
        (length rs - limit_of email_max key) [] ""

-- The loop of `assemble_briefing` that numbers the items, from 1 on through all sections.
unfoldable pub numbered : ℕ → List BriefItem → List BriefItem
numbered n [] = []
numbered n (it ∷ its) = record it { n = suc n } ∷ numbered (suc n) its

unfoldable pub number_sections : ℕ → List Section → List Section
unfolding numbered
number_sections n [] = []
number_sections n (s ∷ ss) =
    record s { items = numbered n s.items } ∷ number_sections (n + length s.items) ss

unfoldable pub all_items : List Section → List BriefItem
all_items [] = []
all_items (s ∷ ss) = s.items ++ all_items ss
