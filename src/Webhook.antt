-- ===== src/Webhook.antt =====
-- The messages that a WhatsApp webhook brings, and the ids of those that were handled:
-- agent/services/message_sources.py, `SeenIds` and `claim_message_id` of
-- agent/services/evolution_filter.py. The file of the ids is a list, oldest first, or none where it is
-- not there or cannot be read.
pub mod Filter
pub mod Sift
pub mod Accounts
pub mod Route
pub mod Recent
pub mod Claims
pub mod Routing
pub mod Once
use evi.Common.{
  ℕ, ◌-◌, String, Bool, true, false, not, ◌||◌, Option, none, some, List, [], ◌∷◌, ◌++◌, ◌==◌,
  str_eq, if◌then◌else◌, any, select, drop, length,
}

-- Without what belongs to a voice note, which is passed on unread.
pub record IncomingMessage : Type 0 where
  pub id : String
  pub sender : String
  pub text : String
  pub ts : String
  pub from_me : Bool
  pub is_group : Bool
  pub label : String
  pub participant : String
  pub kind : String

abbrev pub max_seen_ids : ℕ
max_seen_ids = 5000

-- `SeenIds.__contains__`
abbrev pub has : String → List String → Bool
has id ids = any (λ x. str_eq x id) ids

-- `SeenIds.__init__`: a repeated key of a dict stays where it was first.
abbrev pub seen_of : List String → List String
seen_of [] = []
seen_of (x ∷ xs) = x ∷ select (λ y. not (str_eq y x)) (seen_of xs)

-- `SeenIds.add`
abbrev pub remember_id : String → List String → List String
remember_id id ids = select (λ y. not (str_eq y id)) ids ++ id ∷ []

-- `SeenIds.update`
abbrev pub add_ids : List String → List String → List String
add_ids [] ids = ids
add_ids (x ∷ xs) ids = add_ids xs (remember_id x ids)

-- The slice `[-limit:]`
abbrev pub newest_ids : ℕ → List String → List String
newest_ids limit ids = if limit == 0 then ids else drop (length ids - limit) ids

unfoldable pub load_seen_ids : Option (List String) → List String
load_seen_ids none = []
load_seen_ids (some ids) = seen_of (newest_ids max_seen_ids ids)

unfoldable pub save_seen_ids : List String → Option (List String)
save_seen_ids seen = some (newest_ids max_seen_ids seen)

unfoldable pub claim_in : String → List String → Option (List String) → Bool × Option (List String)
unfolding save_seen_ids
claim_in id seen file =
    if has id seen then (false, file) else (true, save_seen_ids (remember_id id seen))

-- `dedupe` is EVI_WHATSAPP_DEDUPE_IDS.
unfoldable pub claim_message_id : Bool → String → Option (List String) → Bool × Option (List String)
unfolding load_seen_ids claim_in
claim_message_id dedupe id file =
    if not dedupe || str_eq id "" then (true, file) else claim_in id (load_seen_ids file) file
