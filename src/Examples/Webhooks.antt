-- ===== src/Examples/Webhooks.antt =====
-- A control chat, a contact, and a message that arrives again.
use evi.Common.{
  ◌≡◌, ◌≤◌, refl, true, false, ◌||◌, if◌then◌else◌, none, some, String, List, [], ◌∷◌, str_eq, map,
  arith,
}
use evi.Webhook.{IncomingMessage, claim_message_id, load_seen_ids, save_seen_ids, claim_in}
use evi.Webhook.Filter.{
  Settings, TimeReader, Filtered, absent, aware, naive, filter_for_processing, sift, reason_to_drop,
  parse_ts, keep_newest,
}
use evi.Webhook.Accounts.{Splits, Accounts, filter-Accounts}
use evi.Webhook.Sift.{Comparable}
use evi.Webhook.Route.{kept_of, Control, evolution_webhook, route, route_one}
use evi.Webhook.Once.{command_once, handled_once, webhooks, carried_out, has_handled}

-- Times of one digit.
abbrev reader : TimeReader
reader = record {
  isdigit = λ ts. str_eq ts "7" || str_eq ts "9";
  from_timestamp = λ ts. if str_eq ts "7" then aware 7 else aware 9;
  from_iso = λ ts. absent;
}

abbrev settings : Settings
settings = record {
  max_per = 2;
  max_age = 3;
  incoming_only = true;
  skip_groups = true;
  group_whitelist = [];
  dedupe = true;
  require_ts = true;
  watermark = absent;
  evi_prefix = "[EVI]";
  reader = reader;
  strip = λ text. text;
  preview = λ text. text;
}

abbrev control : Control
control = record { jids = "me" ∷ []; is_bot = λ text. false }

abbrev message : String → String → String → IncomingMessage
message id sender ts = record {
  id = id;
  sender = sender;
  text = "oi";
  ts = ts;
  from_me = false;
  is_group = false;
  label = "";
  participant = "";
  kind = "text";
}

abbrev webhook : List IncomingMessage
webhook =
    message "a" "me" "9" ∷ message "b" "ana" "9" ∷ message "c" "ana" "7" ∷ message "a" "me" "9" ∷ []

both_handled : has_handled "b" (evolution_webhook settings control 11 webhook none) ≡ true
unfolding evolution_webhook filter_for_processing sift reason_to_drop parse_ts keep_newest route
    route_one claim_message_id claim_in load_seen_ids save_seen_ids
both_handled = refl

handled_once_example :
    has_handled "b" (
      evolution_webhook settings control 12 webhook (
        webhooks settings control
          ((11, webhook) ∷ [])
          (evolution_webhook settings control 11 webhook none).file))
    ≡ false
handled_once_example =
    handled_once "b" settings control refl refl 11 12 webhook webhook ((11, webhook) ∷ []) none
      (omega arith) both_handled

command_once_example :
    carried_out "a" settings control ((11, webhook) ∷ (12, webhook) ∷ []) none ≤ 1
command_once_example =
    command_once "a" settings control refl refl ((11, webhook) ∷ (12, webhook) ∷ []) none
      (omega arith)

times-Comparable : Comparable settings webhook
unfolding parse_ts
times-Comparable = (refl, (refl, (refl, (refl, tt))))

filter-Accounts_example :
    (f : Filtered) × (filter_for_processing settings 11 webhook none ≡ some f)
    × Splits (str_eq "c") webhook f
    × Accounts 4 f
filter-Accounts_example =
    filter-Accounts settings (str_eq "c") 11 webhook none refl times-Comparable

-- A time without an offset makes the filter raise, whatever the present is.
naive_raises :
    filter_for_processing
      (record settings { reader = record reader { from_iso = λ ts. naive 8 } })
      9
      (message "b" "ana" "2026-01-01T10:00" ∷ [])
      none
    ≡ none
unfolding filter_for_processing sift reason_to_drop parse_ts load_seen_ids
naive_raises = refl

-- An id that comes twice in one webhook is kept twice.
repeated_kept :
    map
      (λ m. m.id)
      (kept_of (
        filter_for_processing settings 9 (message "b" "ana" "9" ∷ message "b" "ana" "9" ∷ []) none))
    ≡ "b" ∷ "b" ∷ []
unfolding filter_for_processing sift reason_to_drop parse_ts keep_newest load_seen_ids save_seen_ids
repeated_kept = refl
