-- ===== src/Identity.antt =====
-- agent/services/contact_identity.py, to the merge of the conversations, with the table `wa_jid_alias`
-- of agent/db.py: one person under two ids. The endings of an id are tests that are given, and the
-- clock of the cache counts seconds.
pub mod Canonical
use evi.Common.{
  ℕ, ◌+◌, String, Bool, true, false, not, ◌&&◌, ◌||◌, Option, none, some, List, [], ◌∷◌, ◌++◌, ltb,
  str_eq, if◌then◌else◌, any, find?, update, select, sort,
}
use evi.Conversation.{Conversation}
use evi.Conversation.Merge.{merge_conversation_state}

pub record Alias : Type 0 where
  pub lid : String
  pub phone_jid : String
  pub seen_at : ℕ

abbrev pub is_alias_of : String → Alias → Bool
is_alias_of lid a = str_eq a.lid lid

-- The last writer wins.
unfoldable pub upsert_jid_alias : String → String → ℕ → List Alias → List Alias
upsert_jid_alias lid phone_jid db_now rows =
    if any (is_alias_of lid) rows
    then update (is_alias_of lid) (λ a. record a { phone_jid = phone_jid; seen_at = db_now }) rows
    else rows ++ record { lid = lid; phone_jid = phone_jid; seen_at = db_now } ∷ []

abbrev pub phone_of : Option Alias → Option String
phone_of none = none
phone_of (some a) = some a.phone_jid

unfoldable pub get_jid_alias : String → List Alias → Option String
get_jid_alias lid rows = phone_of (find? (is_alias_of lid) rows)

abbrev pub seen_after : Alias → Alias → Bool
seen_after a b = ltb b.seen_at a.seen_at

unfoldable pub list_jid_aliases : List Alias → List Alias
list_jid_aliases rows = sort seen_after rows

-- An entry of `_cache`: when it ends, and what it answers.
pub record Hit : Type 0 where
  pub ends : ℕ
  pub phone : String

abbrev pub cached : String → List (String × Hit) → Option Hit
cached jid [] = none
cached jid ((k, h) ∷ rest) = if str_eq k jid then some h else cached jid rest

abbrev pub remember : String → Hit → List (String × Hit) → List (String × Hit)
remember jid h cache = (jid, h) ∷ select (λ e. not (str_eq e.0 jid)) cache

pub record Identity : Type 0 where
  pub aliases : List Alias
  pub conversations : List Conversation
  pub cache : List (String × Hit)

pub record Env : Type 0 where
  pub is_lid : String → Bool
  pub is_phone : String → Bool
  pub has_database : Bool
  -- whether the calls of the database return
  pub db_ok : Bool
  pub merge_ok : Bool
  pub now : ℕ
  pub db_now : ℕ

-- _TTL_S and _FAIL_TTL_S
abbrev pub ttl : ℕ
ttl = 60

abbrev pub fail_ttl : ℕ
fail_ttl = 30

-- The entry of the cache that has not ended.
abbrev pub live : ℕ → Option Hit → Option String
live now none = none
live now (some h) = if ltb now h.ends then some h.phone else none

abbrev pub or_self : Option String → String → String
or_self none jid = jid
or_self (some phone) jid = if str_eq phone "" then jid else phone

-- Without an entry in the cache.
abbrev pub look_up : Env → String → Identity → Identity × String
look_up env jid s =
    let phone = or_self (get_jid_alias jid s.aliases) jid in
    if env.db_ok
    then (
      record s { cache = remember jid (record { ends = env.now + ttl; phone = phone }) s.cache },
      phone,
    )
    else (
      record s { cache = remember jid (record { ends = env.now + fail_ttl; phone = jid }) s.cache },
      jid,
    )

abbrev pub answer_from : Env → String → Option String → Identity → Identity × String
answer_from env jid (some phone) s = (s, phone)
answer_from env jid none s = look_up env jid s

unfoldable pub canonical_jid : Env → String → Identity → Identity × String
unfolding get_jid_alias
canonical_jid env jid s =
    if not (env.is_lid jid) || not env.has_database
    then (s, jid)
    else answer_from env jid (live env.now (cached jid s.cache)) s

abbrev pub is_known : Option String → String → Bool
is_known none phone = false
is_known (some p) phone = str_eq p phone

-- The pair is written, and then the conversations are merged: two transactions.
abbrev pub write_alias : Env → String → String → Identity → Identity × Bool
write_alias env lid phone s =
    let written = record s { aliases = upsert_jid_alias lid phone env.db_now s.aliases } in
    if not env.db_ok then (s, false) else if not env.merge_ok then (written, false) else (
      record written {
        conversations = (merge_conversation_state lid phone env.db_now s.conversations).0;
        cache = remember lid (record { ends = env.now + ttl; phone = phone }) s.cache;
      },
      true,
    )

unfoldable pub record_alias : Env → String → String → Identity → Identity × Bool
unfolding upsert_jid_alias merge_conversation_state
record_alias env lid phone s =
    if not (env.is_lid lid) || not (env.is_phone phone)
    then (s, false)
    else if not env.has_database
    then (s, false)
    else if is_known (live env.now (cached lid s.cache)) phone
    then (s, false)
    else write_alias env lid phone s
