-- ===== src/Examples/Guard.antt =====
-- A deletion that is staged in one turn and confirmed in the next.
use evi.Common.{◌≡◌, ◌≢◌, ◌⊎◌, refl, String, true, Option, none, some, List, [], ◌∷◌, arith}
use evi.WriteGuard.Channels.{guarded_write, check_write, is_user_channel, guarded_write_user}
use evi.WriteGuard.{
  Pending, Texts, Refusal, accepted, refused, check_confirmation, is_confirmation, load_latest,
  load_tool_snapshots, check_latest, check_pending, save_tool_snapshot, create_pending, on_turn_end,
  clear_pending, remove,
}
use evi.WriteGuard.Turns.{Event, stage, turn_end, after, step}
use evi.WriteGuard.Confirm.{Follows, confirm-Follows, confirm_accepted}

-- Texts that are normal already.
abbrev plain : Texts
plain = record { strip = λ s. s; len = λ s. 3; normalize = λ s. s }

abbrev two_turns : List Event
two_turns = turn_end true "tg" (some 10) ∷ stage true "k" "tg" ("m1" ∷ "m2" ∷ []) 10 1000 ∷ []

accepted_next :
    check_confirmation plain true "tg" "k" "sim" (some 11) 2000 (after two_turns)
    ≡ accepted ("m1" ∷ "m2" ∷ [])
unfolding check_confirmation is_confirmation load_latest load_tool_snapshots check_latest
    check_pending save_tool_snapshot create_pending on_turn_end clear_pending remove after step
accepted_next = refl

refused_later :
    check_confirmation plain true "tg" "k" "sim"
      (some 12)
      2000
      (after (turn_end true "tg" (some 11) ∷ two_turns))
    ≡ refused Refusal.nothing_pending
unfolding check_confirmation is_confirmation load_latest load_tool_snapshots check_latest
    check_pending save_tool_snapshot create_pending on_turn_end clear_pending remove after step
refused_later = refl

confirm-Follows_example :
    (p : Pending) × Follows plain "tg" "k" "sim" 11 2000 ("m1" ∷ "m2" ∷ []) two_turns p
confirm-Follows_example =
    confirm-Follows plain true "tg" "k" "sim" 11 2000 ("m1" ∷ "m2" ∷ []) two_turns accepted_next

confirm_accepted_example :
    check_confirmation plain true "tg" "k" "sim" (some 11) 2000 (after two_turns)
    ≡ accepted ("m1" ∷ "m2" ∷ [])
unfolding is_confirmation
confirm_accepted_example =
    confirm_accepted plain true "tg" "k" "sim" ("m1" ∷ "m2" ∷ []) 10 11 1000 2000 [] refl refl
      (omega arith) (omega arith) (omega arith) refl

abbrev in_telegram : Option String
in_telegram = some "telegram"

abbrev write_note : List String → List String × String
write_note notes = ("nova" ∷ notes, "ok")

written : (guarded_write in_telegram "add_note" write_note []).0 ≢ []
unfolding guarded_write check_write
written e = cc

guarded_write_user_example :
    (in_telegram ≡ none) ⊎ ((c : String) × (in_telegram ≡ some c) × (is_user_channel c ≡ true))
guarded_write_user_example = guarded_write_user in_telegram "add_note" write_note [] written
