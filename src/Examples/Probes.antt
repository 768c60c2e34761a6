-- ===== src/Examples/Probes.antt =====
-- A check that fails on a day, and its warnings.
use evi.Common.{◌≡◌, refl, true, false, some, none, List, [], ◌∷◌}
use evi.Probe.{claim_probe_notification, Probes, Calls, delivered, raises, notify, record_source}
use evi.Probe.Warnings.{Call, sends, warned_once, warned_again}
use evi.Probe.Outages.{Seen, DownSince, record_all, outage_since}

abbrev nothing : Probes
nothing = record { log = []; next_id = 1; claims = []; sources = [] }

abbrev calls : Calls
calls = record {
  claim_ok = true;
  answer = delivered;
  release_ok = true;
  mark_ok = true;
  rescue_ok = true;
}

was_warned : (notify calls 40 "gmail" nothing).result ≡ true
unfolding notify claim_probe_notification
was_warned = refl

abbrev later : List Call
later =
    record { calls = record calls { answer = raises }; day = 40; check = "tasks" }
    ∷ record { calls = calls; day = 40; check = "gmail" }
    ∷ []

warned_once_example : sends 40 "gmail" later (notify calls 40 "gmail" nothing).store ≡ 0
warned_once_example = warned_once calls 40 "gmail" nothing later was_warned

warned_again_example :
    let w = notify (record calls { mark_ok = false }) 40 "gmail" nothing in
    (w.sent ≡ true) × (w.result ≡ false) × ((notify calls 40 "gmail" w.store).sent ≡ true)
warned_again_example =
    warned_again (record calls { mark_ok = false }) calls 40 "gmail" nothing refl refl refl refl
      refl refl refl refl

abbrev seen : List Seen
seen =
    record { source = "tasks"; ok = true; reason = none; at = 300 }
    ∷ record { source = "gmail"; ok = false; reason = some "oauth"; at = 400 }
    ∷ []

outage_since_example : DownSince "gmail" 200 (
    record_all seen
      (record_source "gmail" false (some "oauth") 200 (record_source "gmail" true none 100 [])))
outage_since_example = outage_since "gmail" none (some "oauth") 100 200 seen [] (refl, (refl, tt))
