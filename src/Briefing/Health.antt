-- ===== src/Briefing/Health.antt =====
-- The notice of sources that are down at the top of a briefing, and what a reply of the user marks,
-- from agent/services/briefing.py. The state of the WhatsApp session and the day that an outage is
-- shown with are inputs.
use Prim.Native.String.{◌++◌ as cat}
use evi.Common.{
  ℕ, String, Bool, true, false, not, ◌&&◌, ◌||◌, Option, none, some, List, [], ◌∷◌, str_eq,
  if◌then◌else◌, any, select, length, map,
}
use evi.Probe.{Source, record_source, list_sources_down}
use evi.TurnLog.{is_command}
use evi.Briefing.{Log, mark_briefing_replied_window}
use evi.Briefing.Items.{Key, Section, calendar, tasks, email, whatsapp}

-- _SOURCE_KEYS
abbrev pub source_of : Key → Option String
source_of calendar = some "calendar"
source_of tasks = some "tasks"
source_of email = some "gmail"
source_of whatsapp = some "whatsapp"
source_of _ = none

pub record Health : Type 0 where
  pub enabled : Bool
  -- whether the call for a source returns, and that of the list
  pub record_ok : String → Bool
  pub list_ok : Bool
  -- `whatsapp_connection_state`, where the session is configured
  pub state : Option String
  pub now : ℕ
  pub text_before : String → String → Bool
  -- `_since`
  pub since : Source → String

abbrev pub has_error : Section → Bool
has_error s = not (str_eq s.error "")

abbrev pub why_of : Section → Option String
why_of s = if has_error s then some (if str_eq s.reason "" then "error" else s.reason) else none

-- A call, after which the rest goes on unless it raises.
abbrev pub recorded_or_stop :
    Health → String → Bool → Option String → List Source × Bool → List Source × Bool
recorded_or_stop h source ok reason (rows, going) =
    if not going
    then (rows, false)
    else if h.record_ok source
    then (record_source source ok reason h.now rows, true)
    else (rows, false)

abbrev pub record_section :
    Health → Section → Option String → List Source × Bool → List Source × Bool
record_section h s none k = k
record_section h s (some source) k =
    if str_eq source "whatsapp"
    then k
    else recorded_or_stop h source (not (has_error s)) (why_of s) k

unfoldable pub record_sections : Health → List Section → List Source × Bool → List Source × Bool
unfolding record_source
record_sections h [] k = k
record_sections h (s ∷ ss) k = record_sections h ss (record_section h s (source_of s.key) k)

abbrev pub is_whatsapp : Section → Bool
is_whatsapp s = elim (source_of s.key) [ none ↦ false | some source ↦ str_eq source "whatsapp" ]

-- Whether the last such section has an error.
abbrev pub wa_failed : List Section → Bool → Bool
wa_failed [] failed = failed
wa_failed (s ∷ ss) failed = wa_failed ss (if is_whatsapp s then has_error s else failed)

abbrev pub record_whatsapp : Health → Option String → Bool → List Source × Bool → List Source × Bool
record_whatsapp h (some state) failed k =
    if str_eq state "open"
    then recorded_or_stop h "whatsapp" true none k
    else recorded_or_stop h "whatsapp" false (some "disconnected") k
record_whatsapp h none failed k =
    if failed then recorded_or_stop h "whatsapp" false (some "error") k else k

-- `_record_sources`, with whether every call returned.
unfoldable pub record_sources : Health → List Section → List Source → List Source × Bool
unfolding record_sections
record_sources h ss rows =
    record_whatsapp h h.state (wa_failed ss false) (record_sections h ss (rows, true))

-- _GOOGLE
abbrev pub google : List (String × String)
google = ("calendar", "agenda") ∷ ("tasks", "tarefas") ∷ ("gmail", "e-mail") ∷ []

abbrev pub has_reason : String → Option String → Bool
has_reason text none = false
has_reason text (some reason) = str_eq reason text

abbrev pub is_google : Source → Bool
is_google r = any (λ g. str_eq g.0 r.source) google && has_reason "oauth" r.reason

abbrev pub joined : List String → String
joined [] = ""
joined (x ∷ []) = x
joined (x ∷ xs) = cat x (cat ", " (joined xs))

abbrev pub google_names : List Source → String
google_names down =
    joined
      (map (λ g. g.1) (select (λ g. any (λ r. str_eq r.source g.0) (select is_google down)) google))

-- _SOURCE_LABELS
abbrev pub source_label : String → String
source_label source =
    if str_eq source "calendar"
    then "Agenda"
    else if str_eq source "tasks"
    then "Tarefas"
    else if str_eq source "gmail"
    then "E-mail"
    else if str_eq source "telegram"
    then "Telegram"
    else if str_eq source "whatsapp"
    then "WhatsApp"
    else source

-- _SHORT_REASONS
abbrev pub short_reason : Option String → String
short_reason none = "indisponível"
short_reason (some reason) =
    if str_eq reason "not_configured"
    then "não configurado"
    else if str_eq reason "http_error"
    then "erro de comunicação"
    else if str_eq reason "upstream_error"
    then "sem resposta"
    else if str_eq reason "unparseable"
    then "resposta ilegível"
    else "indisponível"

abbrev pub google_line : Health → List Source → Source → String
google_line h down r = cat "⚠\u{fe0f} Google (" (
    cat (google_names down)
      (cat "): acesso expirado" (cat (h.since r) " — reconecte no Windmill (Resources)")))

abbrev pub other_line : Health → Source → String
other_line h r =
    if str_eq r.source "whatsapp"
    then cat "📵 WhatsApp desconectado" (
        cat (h.since r) " — o EVI não está lendo suas conversas; gere o QR no manager da Evolution")
    else cat "⚠\u{fe0f} " (
        cat (source_label r.source)
          (cat " fora" (cat (h.since r) (cat " — " (short_reason r.reason)))))

-- One line for each source, and one for all that Google locked out, where the first of them stands.
unfoldable pub banner_lines : Health → List Source → Bool → List Source → List String
banner_lines h down google_done [] = []
banner_lines h down google_done (r ∷ rs) =
    let rest = banner_lines h down (google_done || is_google r) rs in
    if is_google r
    then (if google_done then rest else google_line h down r ∷ rest)
    else other_line h r ∷ rest

abbrev pub is_covered : List Source → Section → Bool
is_covered down s =
    has_error s
    && elim (source_of s.key) [ none ↦ false | some k ↦ any (λ r. str_eq r.source k) down ]

abbrev pub shown_with : Health → List Section → List Source → Bool → List String × List Section
shown_with h ss rows false = ([], ss)
shown_with h ss rows true =
    let down = list_sources_down h.text_before rows in
    (
      banner_lines h down false down,
      map (λ s. if is_covered down s then record s { in_banner = true } else s) ss,
    )

-- `_source_health`: the lines, and the sections that they cover.
unfoldable pub source_health :
    Health → List Section → List Source → List Source × (List String × List Section)
unfolding record_sources banner_lines list_sources_down
source_health h ss rows =
    let (rows', going) = record_sources h ss rows in
    if h.enabled then (rows', shown_with h ss rows' (going && h.list_ok)) else (rows, ([], ss))

-- REPLY_WINDOW, in hours
abbrev pub reply_window : ℕ
reply_window = 3

-- A message of the user that is no command marks the briefings of the window. With how many.
unfoldable pub note_user_reply : (String → String) → Bool → String → ℕ → Log → Log × ℕ
unfolding mark_briefing_replied_window
note_user_reply lstrip ok text db_now s =
    let (s', kinds) = mark_briefing_replied_window reply_window db_now s in
    if is_command (lstrip text) || not ok then (s, 0) else (s', length kinds)
