-- ===== src/Webhook/Route.antt =====
-- The loop of `evolution_webhook` in agent/main.py over the messages of one webhook, and the filter
-- after it. What a command of the user does is not modelled here, and the records of the conversation
-- between the two change nothing that they read.
use evi.Common.{
  ℕ, String, Bool, true, false, not, ◌&&◌, Option, none, some, List, [], ◌∷◌, ◌++◌, str_eq,
  if◌then◌else◌,
}
use evi.Webhook.{IncomingMessage, has, claim_message_id}
use evi.Webhook.Filter.{Settings, Filtered, filter_for_processing}

-- `parse_control_jids`, and `is_evi_bot_message` of the client.
pub record Control : Type 0 where
  pub jids : List String
  pub is_bot : String → Bool

-- `control` are the messages that were given to `process_whatsapp_control_message`.
pub record Routed : Type 0 where
  pub control : List IncomingMessage
  pub ingest_raw : List IncomingMessage
  pub audio_activity : List IncomingMessage
  pub file : Option (List String)

abbrev pub commanded : IncomingMessage → Bool × Option (List String) → Routed → Routed
commanded m (true, file) r = record r { control = r.control ++ m ∷ []; file = file }
commanded m (false, file) r = record r { file = file }

unfoldable pub route_one : Settings → Control → IncomingMessage → Routed → Routed
unfolding claim_message_id
route_one c k m r =
    if has m.sender k.jids
    then (if m.is_group && not m.from_me
        then r
        else if k.is_bot m.text
        then r
        else commanded m (claim_message_id c.dedupe m.id r.file) r)
    else if str_eq m.kind "audio"
    then record r { audio_activity = r.audio_activity ++ m ∷ [] }
    else record r { ingest_raw = r.ingest_raw ++ m ∷ [] }

unfoldable pub route : Settings → Control → List IncomingMessage → Routed → Routed
unfolding route_one
route c k [] r = r
route c k (m ∷ ms) r = route c k ms (route_one c k m r)

-- What one webhook handles: the commands of the user, and the messages that are read for commitments.
pub record Handled : Type 0 where
  pub control : List IncomingMessage
  pub kept : List IncomingMessage
  pub file : Option (List String)

-- What a filter leaves: nothing is kept and the file stays where it raises.
abbrev pub kept_of : Option Filtered → List IncomingMessage
kept_of none = []
kept_of (some f) = f.kept

abbrev pub file_of : Option (List String) → Option Filtered → Option (List String)
file_of file none = file
file_of file (some f) = f.file

-- Where the filter raises, the webhook fails after the commands were carried out.
abbrev pub handled_of : List IncomingMessage → Option (List String) → Option Filtered → Handled
handled_of control file f = record { control = control; kept = kept_of f; file = file_of file f }

unfoldable pub evolution_webhook :
    Settings → Control → ℕ → List IncomingMessage → Option (List String) → Handled
unfolding route filter_for_processing
evolution_webhook c k now messages file =
    let r =
      route c k messages
        (record { control = []; ingest_raw = []; audio_activity = []; file = file }) in
    handled_of r.control r.file (filter_for_processing c now r.ingest_raw r.file)
