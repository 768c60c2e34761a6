-- ===== src/Briefing/Buttons.antt =====
-- The inline keyboard of a briefing, from agent/services/briefing.py. The digits of a day and the
-- decimal text of a number are parameters; the kind of a briefing is "morning" or "evening".
use Prim.Native.String.{◌++◌ as cat}
use evi.Common.{
  ℕ, String, Bool, true, false, not, ◌&&◌, ◌||◌, Option, none, some, List, [], ◌∷◌, ◌++◌, ltb, ◌==◌,
  str_eq, if◌then◌else◌, take, map, contains, select,
}
use evi.Briefing.Items.{BriefItem}

-- BUTTON_KINDS
abbrev pub has_buttons : String → Bool
has_buttons kind =
    str_eq kind "reply_debt"
    || str_eq kind "commitment"
    || str_eq kind "name_prompt"
    || str_eq kind "awaiting"

-- `d[n] = v` where `d` is read in the order of its keys
abbrev pub put {ℓ} : {A : Type ℓ} → ℕ → A → List (ℕ × A) → List (ℕ × A)
put n v [] = (n, v) ∷ []
put n v ((m, w) ∷ rest) =
    let r = put n v rest in
    if n == m then (n, v) ∷ rest else if ltb n m then (n, v) ∷ (m, w) ∷ rest else (m, w) ∷ r

abbrev pub from_pairs {ℓ} : {A : Type ℓ} → List (ℕ × A) → List (ℕ × A) → List (ℕ × A)
from_pairs [] d = d
from_pairs ((n, v) ∷ ps) d = from_pairs ps (put n v d)

-- MAX_BUTTON_ROWS
abbrev pub max_button_rows : ℕ
max_button_rows = 10

-- The first rows, with the kinds of their items.
unfoldable pub actionable_kinds : List BriefItem → List (ℕ × String)
actionable_kinds items =
    take max_button_rows (
      from_pairs (map (λ it. (it.n, it.ref.kind)) (select (λ it. has_buttons it.ref.kind) items))
        [])

abbrev pub is_remindable : String → BriefItem → Bool
is_remindable kind it =
    not (str_eq it.ref.rm_title "") && (str_eq kind "evening" || str_eq it.ref.kind "awaiting")

unfoldable pub remindable_titles : List BriefItem → String → List (ℕ × String)
remindable_titles items kind =
    take max_button_rows
      (from_pairs (map (λ it. (it.n, it.ref.rm_title)) (select (is_remindable kind) items)) [])

pub record Button : Type 0 where
  pub text : String
  pub callback_data : String

-- KIND_CODES
abbrev pub kind_code : String → String
kind_code kind = if str_eq kind "morning" then "m" else "e"

abbrev pub value_of : ℕ → List (ℕ × String) → Option String
value_of n [] = none
value_of n ((m, v) ∷ rest) = if n == m then some v else value_of n rest

module _ (show : ℕ → String) (day_digits : String) (kind : String) where
  abbrev pub callback_data : ℕ → String → String
  callback_data n action =
      cat "b1:"
        (cat day_digits (cat ":" (cat (kind_code kind) (cat ":" (cat (show n) (cat ":" action))))))

  abbrev pub button : ℕ → String → String → Button
  button n label action = record {
    text = cat (show n) label;
    callback_data = callback_data n action;
  }

  abbrev pub action_buttons : ℕ → Option String → Bool → List Button
  action_buttons n none handled = []
  action_buttons n (some item_kind) handled =
      if handled
      then []
      else if str_eq item_kind "awaiting"
      then button n " ✖" "no" ∷ []
      else if str_eq item_kind "name_prompt"
      then button n " ✖ ignorar" "no" ∷ []
      else button n " ✅" "ok" ∷ button n " ✖" "no" ∷ []

  abbrev pub remind_button : ℕ → Bool → List Button
  remind_button n waits = if waits then button n " 🔔" "rm" ∷ [] else []

  -- A row for each number, unless it is empty.
  abbrev pub item_rows : List (ℕ × String) → List ℕ → List ℕ → List (ℕ × Bool) → List (List Button)
  item_rows actionable done set_reminders [] = []
  item_rows actionable done set_reminders ((n, b) ∷ ns) =
      let rest = item_rows actionable done set_reminders ns in
      let row =
        action_buttons n (value_of n actionable) (contains n done)
        ++ remind_button n (contains n set_reminders) in
      add_row row rest
    where
      add_row : List Button → List (List Button) → List (List Button)
      add_row [] rest = rest
      add_row (b ∷ bs) rest = (b ∷ bs) ∷ rest

  abbrev pub chosen : Option String → String → Bool
  chosen none value = false
  chosen (some f) value = str_eq f value

  abbrev pub plain_button : String → String → Button
  plain_button text action = record { text = text; callback_data = callback_data 0 action }

  unfoldable pub build_keyboard :
      List (ℕ × String) → List ℕ → Option String → List ℕ → List ℕ → List (List Button)
  build_keyboard actionable done feedback remind reminded =
      let set_reminders = select (λ n. not (contains n reminded)) remind in
      let numbers =
        from_pairs (map (λ n. (n, true)) (map (λ p. p.0) actionable ++ set_reminders)) [] in
      item_rows actionable done set_reminders numbers
      ++ (plain_button (if chosen feedback "up" then "👍 ✓" else "👍") "up"
          ∷ plain_button (if chosen feedback "down" then "👎 ✓" else "👎") "dn"
          ∷ [])
        ∷ []
