-- ===== src/Examples/Debts.antt =====
-- A conversation in which a question is heard, and then answered.
use evi.Common.{
  ◌≤◌, ◌≢◌, ◌⊎◌, true, none, max, length, str_eq, if◌then◌else◌, ◌≡◌, refl, String, false, some,
  List, [], ◌∷◌, All, arith,
}
use evi.Conversation.{
  new_row, greatest, get_state, is_debt, Conversation, record_inbound, record_outbound,
  list_debt_candidates,
}
use evi.Conversation.Merge.{merge_conversation_state, merged, list_states}
use evi.Conversation.Merging.{merge_state}
use evi.ReplyDebts.{Jids, Wording, fold_alias_states, fold_states, list_debts}
use evi.ReplyDebts.Listing.{Apart}
use evi.ReplyDebts.Owed.{Owed, list_debts-Owed}

abbrev asked : List Conversation
unfolding record_inbound
asked = record_inbound (λ s. s) "ana" 100 "vem amanhã?" "m1" 101 []

abbrev ids_of : List Conversation → List String
ids_of [] = []
ids_of (r ∷ rs) = r.jid ∷ ids_of rs

one_debt : ids_of (list_debt_candidates 500 10 1000 200 asked) ≡ "ana" ∷ []
unfolding list_debt_candidates asked
one_debt = refl

-- The same person under an alias, who wrote again and was answered there.
abbrev aliased : List Conversation
unfolding asked record_inbound record_outbound
aliased =
    record_outbound "55@lid" 160 (some "ok") 161
      (record_inbound (λ s. s) "55@lid" 150 "?" "m3" 151 asked)

abbrev ana_row : Conversation
unfolding asked record_inbound
ana_row = elim (get_state "ana" asked) [ none ↦ new_row "" 0 | some r ↦ r ]

abbrev lid_row : Conversation
unfolding aliased get_state
lid_row = elim (get_state "55@lid" aliased) [ none ↦ new_row "" 0 | some r ↦ r ]

merge_state_example :
    let (s', done) = merge_conversation_state "55@lid" "ana" 300 aliased in
    let m = merged lid_row 300 ana_row in
    (done ≡ true)
    × (get_state "55@lid" s' ≡ none)
    × (get_state "ana" s' ≡ some m)
    × (m.last_in_at ≡ greatest ana_row.last_in_at lid_row.last_in_at)
    × (m.last_out_at ≡ greatest ana_row.last_out_at lid_row.last_out_at)
    × (m.acknowledged_at ≡ greatest ana_row.acknowledged_at lid_row.acknowledged_at)
    × ((m.last_in_at ≡ ana_row.last_in_at)
          × (m.last_in_id ≡ ana_row.last_in_id)
          × (m.last_in_preview ≡ ana_row.last_in_preview)
        ⊎ (m.last_in_at ≡ lid_row.last_in_at)
          × (m.last_in_id ≡ lid_row.last_in_id)
          × (m.last_in_preview ≡ lid_row.last_in_preview))
    × ((is_debt 500 10 1000 m ≡ false)
        ⊎ (is_debt 500 10 1000 ana_row ≡ true)
        ⊎ (is_debt 500 10 1000 lid_row ≡ true))
unfolding aliased lid_row ana_row get_state
merge_state_example =
    merge_state "55@lid" "ana" 300 500 10 1000 aliased lid_row ana_row refl refl refl

abbrev jids : Jids
jids = record {
  is_lid = λ s. str_eq s "55@lid";
  is_one_way = λ s. false;
  is_group = λ s. false;
  canonical = λ s. if str_eq s "55@lid" then "ana" else s;
  control = [];
}

abbrev wording : Wording
wording = record {
  strip = λ s. s;
  len = λ s. 5;
  words = λ s. 4;
  is_closing = λ s. str_eq s "ok";
  looks_like_request = λ s. true;
  is_request = λ s. true;
  is_placeholder = λ s. false;
  cut = λ s. s;
  cut_out = λ s. s;
  excerpt = λ s. s;
  name_of = λ s. "Ana";
}

known_ids : All (λ r. r.last_in_id ≢ none) (fold_alias_states jids (λ s. true) 200 asked)
unfolding fold_alias_states fold_states list_states asked
known_ids = ((λ e. ground (arith, e)), tt)

list_debts-Owed_example :
    let out = (list_debts jids wording (λ s. true) 500 10 1000 20 200 asked).1 in
    All (Owed jids wording 500 10 1000 (λ r. r.last_in_id ≢ none)) out
    × Apart (λ d. d.jid) out
    × (length out ≤ max 20 1)
list_debts-Owed_example =
    list_debts-Owed jids wording (λ s. true) 500 10 1000 20 200 (λ r. r.last_in_id ≢ none) asked
      known_ids
