-- ===== src/Examples/Aliases.antt =====
-- A person who writes under an alias, and whose phone is then learnt.
use evi.Common.{◌∷◌, ◌≡◌, refl, true, none, [], str_eq}
use evi.Conversation.{get_state, record_inbound}
use evi.Identity.{Identity, Env, canonical_jid, record_alias}
use evi.Identity.Canonical.{asked, canonical_recorded}

abbrev unknown : Identity
unfolding record_inbound
unknown = record {
  aliases = [];
  conversations = record_inbound (λ s. s) "55@lid" 100 "oi" "m1" 101 [];
  cache = [];
}

abbrev env : Env
env = record {
  is_lid = λ s. str_eq s "55@lid";
  is_phone = λ s. str_eq s "77@s.whatsapp.net";
  has_database = true;
  db_ok = true;
  merge_ok = true;
  now = 10;
  db_now = 200;
}

was_recorded : (record_alias env "55@lid" "77@s.whatsapp.net" unknown).1 ≡ true
unfolding record_alias unknown
was_recorded = refl

canonical_recorded_example :
    let s' =
      asked
        ((record env { now = 300 }, "88@lid") ∷ (record env { now = 400 }, "55@lid") ∷ [])
        (record_alias env "55@lid" "77@s.whatsapp.net" unknown).0 in
    ((canonical_jid (record env { now = 500 }) "55@lid" s').1 ≡ "77@s.whatsapp.net")
    × (get_state "55@lid" s'.conversations ≡ none)
canonical_recorded_example =
    canonical_recorded env (record env { now = 500 }) "55@lid" "77@s.whatsapp.net" unknown
      ((record env { now = 300 }, "88@lid") ∷ (record env { now = 400 }, "55@lid") ∷ [])
      was_recorded refl refl (refl, (refl, tt)) refl refl refl
