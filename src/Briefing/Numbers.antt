-- ===== src/Briefing/Numbers.antt =====
-- The number of an item on the screen names the item again.
use Prim.Native.String.{◌++◌ as cat}
use Prim.Native.Char.{code}
use text.Mathlib.TextLemmas.{cons-append, nil-append, cons≢nil}
use text.Mathlib.TextPositions.{eq_refl}
use evi.Common.{
  ℕ, suc, ◌+◌, ◌-◌, ◌<◌, ◌≡◌, refl, ◌∙◌, ap, sym, String, Bool, true, false, not, ◌&&◌, none, some,
  List, [], ◌∷◌, ◌++◌, arith, All, All-map_imp, All-both, ◌==◌, str_eq, eq_iff, map, length,
  Bool-cases, inl, inr,
}
use evi.Briefing.{Log}
use evi.Briefing.Items.{BriefItem, Section, numbered, number_sections, all_items}
use evi.Briefing.Volume.{Texts, shown_sections, fit_volume, max_lines}
use evi.Briefing.Buttons.{value_of}
use evi.Briefing.Deliver.{
  Env, ref_text, snapshot_of, send_out, deliver_briefing, telegram_session_id,
}
use evi.Briefing.Once.{is_sent, deliver_briefing-Sends}
use evi.Briefing.Resolve.{
  Stored, stored, today_snapshot, partition, has_text_id, resolve_each, resolve_in,
  resolve_briefing_items,
}

append_assoc : (xs ys zs : List BriefItem) → (xs ++ ys) ++ zs ≡ xs ++ ys ++ zs
append_assoc [] ys zs = refl
append_assoc (x ∷ xs) ys zs = ap (λ l. x ∷ l) (append_assoc xs ys zs)

numbered-append :
    (n : ℕ) (xs ys : List BriefItem)
    → numbered n (xs ++ ys) ≡ numbered n xs ++ numbered (n + length xs) ys
unfolding numbered
numbered-append n [] ys = ap (λ k. numbered k ys) (omega arith)
numbered-append n (x ∷ xs) ys =
    ap (λ l. record x { n = suc n } ∷ l)
      (numbered-append (suc n) xs ys ∙ ap (λ k. numbered (suc n) xs ++ numbered k ys) (omega arith))

-- The numbers run on through the sections.
all_items-number_sections :
    (n : ℕ) (ss : List Section) → all_items (number_sections n ss) ≡ numbered n (all_items ss)
unfolding number_sections all_items numbered
all_items-number_sections n [] = refl
all_items-number_sections n (s ∷ ss) =
    ap (λ l. numbered n s.items ++ l) (all_items-number_sections (n + length s.items) ss)
    ∙ sym (numbered-append n s.items (all_items ss))

-- All numbers lie above the one that the numbering goes on from.
numbered-above : (n : ℕ) (xs : List BriefItem) → All (λ it. n < it.n) (numbered n xs)
unfolding numbered
numbered-above n [] = tt
numbered-above n (x ∷ xs) = (
  omega arith,
  All-map_imp (λ it h. omega (arith, h)) (numbered (suc n) xs) (numbered-above (suc n) xs),
)

abbrev refs_of : List BriefItem → List (ℕ × String)
refs_of items = map (λ it. (it.n, ref_text it)) items

-- The references of a briefing have each item under its number.
refs_of-numbered :
    (n : ℕ) (xs : List BriefItem)
    → All (λ it. value_of it.n (refs_of (numbered n xs)) ≡ some (ref_text it)) (numbered n xs)
unfolding numbered
refs_of-numbered n [] = tt
refs_of-numbered n (x ∷ xs) = (
  ground arith,
  All-both (λ it above found. ground (arith, above, found)) (numbered (suc n) xs)
      (numbered-above (suc n) xs) (refs_of-numbered (suc n) xs),
)

-- A reference of a kind whose ids are texts comes apart again.
has_no_colon : String → Bool
has_no_colon String.[] = true
has_no_colon (String.◌∷◌ c s) = not (code c == 58) && has_no_colon s

partition-colon : (id : String) → partition (cat ":" id) ≡ ("", id)
unfolding partition
partition-colon id = rw (cons-append ":" "" id, nil-append id) refl

partition-append :
    (k id : String) → has_no_colon k ≡ true → partition (cat k (cat ":" id)) ≡ (k, id)
unfolding partition has_no_colon
partition-append String.[] id h = rw (nil-append (cat ":" id)) (partition-colon id)
partition-append (String.◌∷◌ c s) id h =
    rw (cons-append c s (cat ":" id), partition-append s id (ground (arith, h))) (ground (arith, h))

split_at :
    (k kind id : String)
    → kind ≡ k
    → has_no_colon k ≡ true
    → partition (cat kind (cat ":" id)) ≡ (kind, id)
split_at k kind id e h = rw e (partition-append k id h)

partition-ref :
    (kind id : String) → has_text_id kind ≡ true → partition (cat kind (cat ":" id)) ≡ (kind, id)
unfolding has_no_colon
partition-ref kind id h = elim (Bool-cases (str_eq kind "reply_debt")) [
  | inl e ↦ split_at "reply_debt" kind id ((eq_iff kind "reply_debt").0 e) refl
  | inr e ↦ elim (Bool-cases (str_eq kind "name_prompt")) [
    | inl f ↦ split_at "name_prompt" kind id ((eq_iff kind "name_prompt").0 f) refl
    | inr f ↦
        split_at "awaiting" kind id ((eq_iff kind "awaiting").0 (ground (arith, e, f, h))) refl
  ]
]

-- What a delivery that was sent stores.
sent-stored :
    (env : Env) (kind : String) (s : Log) (rows : List Stored)
    → env.snapshot_ok ≡ true
    → is_sent (send_out env kind s).outcome ≡ true
    → stored env.day (send_out env kind s).effects rows
      ≡ record {
        session_id = telegram_session_id env.chat_id;
        tool_name = "morning_briefing";
        payload = snapshot_of env kind;
        created_on = env.day;
      }
        ∷ rows
unfolding send_out
sent-stored env kind s rows saved h = elim (Bool-cases env.send.sent) [
  | inl e ↦ rw (e, saved) (ground arith)
  | inr e ↦ absurd (ground (arith, e, h))
]

not_empty : (chat_id : String) → str_eq (telegram_session_id chat_id) "" ≡ false
not_empty chat_id = elim (Bool-cases (str_eq (telegram_session_id chat_id) "")) [
  | inl e ↦ absurd (
      cons≢nil
        (sym (cons-append "t" "elegram-" chat_id) ∙ (eq_iff (telegram_session_id chat_id) "").0 e))
  | inr e ↦ e
]

-- An item of such a kind, with an id, resolves to its id.
abbrev pub Resolves : String → ℕ → List Stored → BriefItem → Type 0
Resolves chat_id today rows it =
    has_text_id it.ref.kind ≡ true
    → str_eq it.ref.id "" ≡ false
    → resolve_briefing_items (λ text. none) it.ref.kind true (some (telegram_session_id chat_id))
        chat_id today (it.n ∷ []) rows
      ≡ (it.ref.id ∷ [], [])

today_found :
    (env : Env) (kind : String) (rows : List Stored)
    → today_snapshot true (some (telegram_session_id env.chat_id)) none env.day (
        record {
          session_id = telegram_session_id env.chat_id;
          tool_name = "morning_briefing";
          payload = snapshot_of env kind;
          created_on = env.day;
        }
        ∷ rows)
      ≡ some (snapshot_of env kind)
unfolding today_snapshot
today_found env kind rows =
    rw (not_empty env.chat_id, eq_refl (telegram_session_id env.chat_id)) (ground arith)

number_taken :
    (refs : List (ℕ × String)) (it : BriefItem)
    → value_of it.n refs ≡ some (ref_text it)
    → has_text_id it.ref.kind ≡ true
    → str_eq it.ref.id "" ≡ false
    → resolve_each (λ text. none) it.ref.kind refs (it.n ∷ []) ([], []) ≡ (it.ref.id ∷ [], [])
unfolding resolve_each
number_taken refs it found text_id has_id =
    rw (found, partition-ref it.ref.kind it.ref.id text_id, text_id, eq_refl it.ref.kind, has_id)
      refl

resolved :
    (env : Env) (kind : String) (rows : List Stored) (it : BriefItem)
    → value_of it.n (refs_of env.brief.items) ≡ some (ref_text it)
    → Resolves env.chat_id env.day
        (record {
          session_id = telegram_session_id env.chat_id;
          tool_name = "morning_briefing";
          payload = snapshot_of env kind;
          created_on = env.day;
        }
          ∷ rows)
        it
unfolding resolve_briefing_items resolve_in
resolved env kind rows it found text_id has_id = rw (not_empty env.chat_id) (
    rw (today_found env kind rows)
      (number_taken (snapshot_of env kind).refs it found text_id has_id))

-- Where the items of a briefing are those of the sections that are shown, a delivery of it was sent,
-- and the call that saves its snapshot returned, then right after the delivery, on its day, the number
-- of every item that stands for a conversation resolves to its id, with no error: the numbers run on
-- through the sections, and the snapshot keeps them.
pub number-Resolves :
    (t : Texts) (banner : ℕ) (raw : List Section) (env : Env) (kind : String) (force : Bool)
    (s : Log) (rows : List Stored)
    → env.brief.items ≡ all_items (shown_sections t banner raw)
    → env.snapshot_ok ≡ true
    → is_sent (deliver_briefing env kind force s).outcome ≡ true
    → All
        (Resolves env.chat_id env.day
          (stored env.day (deliver_briefing env kind force s).effects rows))
        env.brief.items
unfolding shown_sections
number-Resolves t banner raw env kind force s rows shown saved h =
    let (s', e) = deliver_briefing-Sends env kind force s h in
    let all : env.brief.items ≡ numbered 0 (all_items (fit_volume t (max_lines t - banner) raw)) =
      shown ∙ all_items-number_sections 0 (fit_volume t (max_lines t - banner) raw) in
    let found : All (λ it. value_of it.n (refs_of env.brief.items) ≡ some (ref_text it))
        env.brief.items =
      rw all (refs_of-numbered 0 (all_items (fit_volume t (max_lines t - banner) raw))) in
    rw e (
      rw (sent-stored env kind s' rows saved (rw e at h))
        (All-map_imp (λ it f. resolved env kind rows it f) env.brief.items found))
