-- ===== src/Webhook/Filter.antt =====
-- `filter_for_processing` of agent/services/evolution_filter.py. The readers of texts and times are
-- parameters, instants are microseconds; the limit of messages for each webhook is not negative.
use text.Mathlib.Text.{starts_with}
use evi.Common.{
  ℕ, suc, ◌-◌, String, Bool, false, not, ◌&&◌, Option, none, some, List, [], ◌∷◌, ◌++◌, ltb, str_eq,
  if◌then◌else◌, true, take, drop, sort, length, map,
}
use evi.Webhook.{IncomingMessage, has, add_ids, load_seen_ids, save_seen_ids}

-- What `_parse_ts` gives: None, a time without an offset, a time with one, as an instant, or the
-- OverflowError that it does not catch.
pub data Time : Type 0 where
  absent : Time
  naive : ℕ → Time
  aware : ℕ → Time
  overflows : Time

-- Of the standard library: `isdigit`, `utcfromtimestamp` of an integer, and `fromisoformat` after the
-- replacement of a Z; `absent` where they raise what is caught.
pub record TimeReader : Type 0 where
  pub isdigit : String → Bool
  pub from_timestamp : String → Time
  pub from_iso : String → Time

unfoldable pub parse_ts : TimeReader → String → Time
parse_ts r ts =
    if str_eq ts "" then absent else if r.isdigit ts then r.from_timestamp ts else r.from_iso ts

-- The settings of the environment: the prefix is stripped, the watermark is that of
-- `_process_after_cutoff`, absent where that catches an exception.
pub record Settings : Type 0 where
  pub max_per : ℕ
  pub max_age : ℕ
  pub incoming_only : Bool
  pub skip_groups : Bool
  pub group_whitelist : List String
  pub dedupe : Bool
  pub require_ts : Bool
  pub watermark : Time
  pub evi_prefix : String
  pub reader : TimeReader
  pub strip : String → String
  pub preview : String → String

pub data Reason : Type 0 where
  evi_echo : Reason
  is_from_me : Reason
  in_group : Reason
  no_ts : Reason
  under_watermark : Reason
  old : Reason
  was_seen : Reason
  max_per_webhook : Reason

pub record DroppedMessage : Type 0 where
  pub source_id : String
  pub message_ts : String
  pub sender : String
  pub from_me : Bool
  pub is_group : Bool
  pub raw_preview : String
  pub reason : Reason

pub record Stats : Type 0 where
  pub received : ℕ
  pub skipped_from_me : ℕ
  pub skipped_group : ℕ
  pub skipped_old : ℕ
  pub skipped_seen : ℕ
  pub skipped_no_ts : ℕ
  pub skipped_watermark : ℕ
  pub kept : ℕ

abbrev pub dropped_of : Settings → Reason → IncomingMessage → DroppedMessage
dropped_of c why m = record {
  source_id = m.id;
  message_ts = m.ts;
  sender = m.sender;
  from_me = m.from_me;
  is_group = m.is_group;
  raw_preview = c.preview m.text;
  reason = why;
}

-- `t and limit and t < limit`; none is the TypeError of comparing a time with an offset and one
-- without.
abbrev pub is_before : Time → Time → Option Bool
is_before (aware t) (aware limit) = some (ltb t limit)
is_before (naive t) (naive limit) = some (ltb t limit)
is_before (aware t) (naive limit) = none
is_before (naive t) (aware limit) = none
is_before t limit = some false

abbrev pub is_absent : Time → Bool
is_absent Time.absent = true
is_absent t = false

-- What the conditions of the loop say of a message: it is a candidate, is dropped, or they raise.
pub data Checked : Type 0 where
  candidate : Checked
  drops : Reason → Checked
  raises : Checked

abbrev pub drop_if : Option Bool → Reason → Checked → Checked
drop_if none why rest = Checked.raises
drop_if (some true) why rest = Checked.drops why
drop_if (some false) why rest = rest

abbrev pub check_time : Settings → ℕ → List String → IncomingMessage → Time → Checked
check_time c now seen m Time.overflows = Checked.raises
check_time c now seen m t =
    if c.require_ts && is_absent t
    then Checked.drops Reason.no_ts
    else drop_if (is_before t c.watermark) Reason.under_watermark (
        drop_if (is_before t (aware (now - c.max_age))) Reason.old
          (if c.dedupe && has m.id seen then Checked.drops Reason.was_seen else Checked.candidate))

unfoldable pub reason_to_drop : Settings → ℕ → List String → IncomingMessage → Checked
unfolding parse_ts
reason_to_drop c now seen m =
    if not (str_eq c.evi_prefix "") && starts_with (c.strip m.text) c.evi_prefix
    then Checked.drops Reason.evi_echo
    else if c.incoming_only && m.from_me
    then Checked.drops Reason.is_from_me
    else if (c.skip_groups && m.is_group) && not (has m.sender c.group_whitelist)
    then Checked.drops Reason.in_group
    else check_time c now seen m (parse_ts c.reader m.ts)

abbrev pub counted : Reason → Stats → Stats
counted Reason.evi_echo s = record s { skipped_from_me = suc s.skipped_from_me }
counted Reason.is_from_me s = record s { skipped_from_me = suc s.skipped_from_me }
counted Reason.in_group s = record s { skipped_group = suc s.skipped_group }
counted Reason.no_ts s = record s { skipped_no_ts = suc s.skipped_no_ts }
counted Reason.under_watermark s = record s { skipped_watermark = suc s.skipped_watermark }
counted Reason.old s = record s { skipped_old = suc s.skipped_old }
counted Reason.was_seen s = record s { skipped_seen = suc s.skipped_seen }
counted Reason.max_per_webhook s = s

pub record Sifted : Type 0 where
  pub candidates : List IncomingMessage
  pub stats : Stats
  pub dropped : List DroppedMessage

-- None is the exception, which ends the loop.
abbrev pub sift_one : Settings → IncomingMessage → Checked → Sifted → Option Sifted
sift_one c m Checked.candidate s = some (record s { candidates = s.candidates ++ m ∷ [] })
sift_one c m (Checked.drops why) s =
    some (record s { stats = counted why s.stats; dropped = s.dropped ++ dropped_of c why m ∷ [] })
sift_one c m Checked.raises s = none

unfoldable pub sift : Settings → ℕ → List String → List IncomingMessage → Sifted → Option Sifted
unfolding reason_to_drop
sift c now seen [] s = some s
sift c now seen (m ∷ ms) s = elim (sift_one c m (reason_to_drop c now seen m) s) [
  | none ↦ none
  | some s' ↦ sift c now seen ms s'
]

-- `datetime.min` for a message without a time. The times of the candidates have an offset: the loop
-- has compared them with one that has.
abbrev pub key_of : Time → ℕ
key_of (aware t) = suc t
key_of t = 0

abbrev pub sort_key : Settings → IncomingMessage → ℕ
sort_key c m = key_of (parse_ts c.reader m.ts)

abbrev pub is_newer : Settings → IncomingMessage → IncomingMessage → Bool
is_newer c a b = ltb (sort_key c b) (sort_key c a)

-- The ids of the messages that have one.
abbrev pub ids_of : List IncomingMessage → List String
ids_of [] = []
ids_of (m ∷ ms) = let rest = ids_of ms in if str_eq m.id "" then rest else m.id ∷ rest

abbrev pub no_stats : ℕ → Stats
no_stats received = record {
  received = received;
  skipped_from_me = 0;
  skipped_group = 0;
  skipped_old = 0;
  skipped_seen = 0;
  skipped_no_ts = 0;
  skipped_watermark = 0;
  kept = 0;
}

pub record Filtered : Type 0 where
  pub kept : List IncomingMessage
  pub stats : Stats
  pub dropped : List DroppedMessage
  pub file : Option (List String)

-- After the loop.
unfoldable pub keep_newest : Settings → List String → Option (List String) → Sifted → Filtered
unfolding save_seen_ids
keep_newest c seen file s =
    let candidates = sort (is_newer c) s.candidates in
    let kept = take c.max_per candidates in
    record {
      kept = kept;
      stats = record s.stats { kept = length kept };
      dropped = s.dropped ++ map (dropped_of c Reason.max_per_webhook) (drop c.max_per candidates);
      file = if c.dedupe then save_seen_ids (add_ids (ids_of kept) seen) else file;
    }

abbrev pub after_loop :
    Settings → List String → Option (List String) → Option Sifted → Option Filtered
after_loop c seen file none = none
after_loop c seen file (some s) = some (keep_newest c seen file s)

-- None is an exception, which leaves the file as it is.
unfoldable pub filter_for_processing :
    Settings → ℕ → List IncomingMessage → Option (List String) → Option Filtered
unfolding sift load_seen_ids keep_newest
filter_for_processing c now [] file =
    some (record { kept = []; stats = no_stats 0; dropped = []; file = file })
filter_for_processing c now (m ∷ ms) file =
    let seen = if c.dedupe then load_seen_ids file else [] in
    after_loop c seen file (
      sift c now seen (m ∷ ms)
        (record { candidates = []; stats = no_stats (length (m ∷ ms)); dropped = [] }))
