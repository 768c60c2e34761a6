-- ===== src/Examples/Briefings.antt =====
-- A briefing with a calendar and two conversations, delivered in the morning.
use evi.Common.{◌≡◌, ℕ, refl, String, true, false, some, none, Option, List, [], ◌∷◌, map, All}
use evi.SendResult.{ok}
use evi.Briefing.{Log, claim_briefing}
use evi.Briefing.Ops.{answer_window, claim, run}
use evi.Briefing.Items.{
  Group, Row, BriefItem, Section, calendar, whatsapp, debts, rows, source_error, run_source,
  all_items, email,
}
use evi.Briefing.Volume.{Texts, shown_sections, fit_volume}
use evi.Briefing.Fit.{told, Fits, fit_volume-Fits}
use evi.Briefing.Deliver.{Env, already_sent, deliver_briefing}
use evi.Briefing.Once.{is_sent, delivered_once}
use evi.Briefing.Resolve.{stored}
use evi.Briefing.Numbers.{Resolves, number-Resolves}

abbrev plain : Texts
plain = record { esc = λ s. s; strip_markers = λ s. s; user_from_model = λ s. s; show = λ n. "#" }

abbrev row_of : String → String → Option Group → Row
row_of kind id group = record {
  text = id;
  ref = record { kind = kind; id = id; out_at = ""; rm_title = "" };
  user = "";
  group = group;
}

abbrev raw : List Section
unfolding run_source
raw =
    run_source (λ s. s) 3 calendar (rows (row_of "event" "e1" none ∷ row_of "event" "e2" none ∷ []))
    ∷ run_source (λ s. s) 3 email (source_error "fora" "oauth")
    ∷ run_source (λ s. s) 3 whatsapp
        (rows
          (row_of "reply_debt" "ana" (some debts) ∷ row_of "reply_debt" "rui" (some debts) ∷ []))
    ∷ []

abbrev items : List BriefItem
unfolding shown_sections raw all_items
items = all_items (shown_sections plain 0 raw)

numbers_run_on :
    map {B = ℕ × String} (λ it. (it.n, it.ref.id)) items
    ≡ (1, "e1") ∷ (2, "e2") ∷ (3, "ana") ∷ (4, "rui") ∷ []
unfolding items
numbers_run_on = refl

fit_volume-Fits_example :
    (map (told plain) (fit_volume plain 4 raw) ≡ map (told plain) raw)
    × Fits plain 4 (fit_volume plain 4 raw)
fit_volume-Fits_example = fit_volume-Fits plain 4 raw

abbrev morning : Env
unfolding shown_sections raw items
morning = record {
  day = 739000;
  brief = record {
    text = "bom dia";
    sections = shown_sections plain 0 raw;
    items = items;
    text_user = "<b>bom dia</b>";
  };
  chat_id = "7";
  buttons = true;
  has_database = true;
  send = ok 1 (some 55);
  claim_ok = true;
  claim_at = 1000;
  sent_ok = true;
  record_ok = true;
  record_at = 2000;
  memory_ok = true;
  message_ok = true;
  snapshot_ok = true;
  meanwhile = claim 739000 "morning" 10 1500 ∷ [];
  day_digits = "20240427";
  show = λ n. "#";
  key_text = λ k. "seção";
  strip_markers = λ s. s;
  wrap_external = λ s. s;
}

abbrev no_log : Log
no_log = record { rows = []; next_id = 1 }

was_sent : is_sent (deliver_briefing morning "morning" false no_log).outcome ≡ true
unfolding deliver_briefing claim_briefing morning
was_sent = refl

delivered_once_example :
    let d =
      deliver_briefing morning "morning" false
        (run (answer_window 3 5000 ∷ []) (deliver_briefing morning "morning" false no_log).log) in
    (d.effects ≡ []) × (d.outcome ≡ already_sent)
unfolding morning
delivered_once_example =
    delivered_once morning morning "morning" false (answer_window 3 5000 ∷ []) no_log was_sent refl
      refl refl refl

number-Resolves_example :
    All
      (Resolves morning.chat_id morning.day
        (stored morning.day (deliver_briefing morning "morning" false no_log).effects []))
      morning.brief.items
unfolding morning items
number-Resolves_example =
    number-Resolves plain 0 raw morning "morning" false no_log [] refl refl was_sent
