-- ===== src/Commitment.antt =====
-- The table `pending_commitments` of agent/db.py: what was promised or asked for in messages. A date
-- is its ordinal; cutting a long text to 2,000 characters is a parameter.
pub mod Queue
pub mod Ops
pub mod Closed
pub mod Captures
pub mod Worker
pub mod Waiting
pub mod Stale
pub mod Sweep
use evi.Common.{
  ℕ, zero, suc, ◌+◌, ◌*◌, String, Bool, true, false, not, ◌&&◌, ◌||◌, Option, none, some, List, [],
  ◌∷◌, ◌++◌, ltb, leb, ◌==◌, str_eq, if◌then◌else◌, get_or, is_some, take, select, update, any,
  count, sort, contains, coalesce,
}

pub data Kind : Type 0 where
  event : Kind
  task : Kind
  promise : Kind

-- `needs_eval` rows wait for an evaluation; `undated` ones have no date.
pub data Status : Type 0 where
  pending : Status
  needs_eval : Status
  undated : Status
  scheduled : Status
  dismissed : Status
  done : Status

abbrev pub is_pending : Status → Bool
is_pending pending = true
is_pending _ = false

abbrev pub is_waiting : Status → Bool
is_waiting needs_eval = true
is_waiting _ = false

abbrev pub is_scheduled : Status → Bool
is_scheduled scheduled = true
is_scheduled _ = false

abbrev pub is_task : Kind → Bool
is_task task = true
is_task _ = false

abbrev pub is_promise : Kind → Bool
is_promise promise = true
is_promise _ = false

pub record Commitment : Type 0 where
  pub id : ℕ
  pub source : String
  pub source_id : String
  pub kind : Kind
  pub title : String
  pub event_date : Option ℕ
  pub event_time : Option String
  pub due_date : Option ℕ
  pub priority : String
  pub status : Status
  pub raw_text : Option String
  pub source_chat : Option String
  pub source_label : Option String
  pub notified_at : Option ℕ
  pub created_at : ℕ
  pub confirmed_at : Option ℕ
  pub confirmed_via : Option String
  pub next_eval_at : Option ℕ
  pub eval_attempts : ℕ
  pub msg_ts : Option ℕ
  pub last_swept_at : Option ℕ

pub record Commitments : Type 0 where
  pub rows : List Commitment
  pub next_id : ℕ

-- What the caller of `insert_pending_commitment` gives.
pub record Capture : Type 0 where
  pub source : String
  pub source_id : String
  pub kind : Kind
  pub title : String
  pub event_date : Option ℕ
  pub event_time : String
  pub due_date : Option ℕ
  pub priority : String
  pub raw_text : String
  pub source_chat : String
  pub source_label : String
  pub status : Status
  pub next_eval_at : Option ℕ
  pub msg_ts : Option ℕ

-- `text or None`
abbrev pub or_none : String → Option String
or_none text = if str_eq text "" then none else some text

abbrev pub captured : (String → String) → Capture → ℕ → ℕ → Commitment
captured cut c id db_now = record {
  id = id;
  source = c.source;
  source_id = c.source_id;
  kind = c.kind;
  title = c.title;
  event_date = c.event_date;
  event_time = or_none c.event_time;
  due_date = c.due_date;
  priority = c.priority;
  status = c.status;
  raw_text = if str_eq c.raw_text "" then none else some (cut c.raw_text);
  source_chat = or_none c.source_chat;
  source_label = or_none c.source_label;
  notified_at = none;
  created_at = db_now;
  confirmed_at = none;
  confirmed_via = none;
  next_eval_at = c.next_eval_at;
  eval_attempts = 0;
  msg_ts = c.msg_ts;
  last_swept_at = none;
}

-- UNIQUE(source, source_id)
abbrev pub is_from : String → String → Commitment → Bool
is_from source source_id r = str_eq r.source source && str_eq r.source_id source_id

-- ON CONFLICT (source, source_id) DO NOTHING; the sequence of the ids moves on in both cases.
unfoldable pub insert_pending_commitment :
    (String → String) → Capture → ℕ → Commitments → Commitments × Option ℕ
insert_pending_commitment cut c db_now s =
    if any (is_from c.source c.source_id) s.rows
    then (record s { next_id = suc s.next_id }, none)
    else (
      record s { rows = s.rows ++ captured cut c s.next_id db_now ∷ []; next_id = suc s.next_id },
      some s.next_id,
    )

-- `date < today`, which NULL fails
abbrev pub is_past : ℕ → Option ℕ → Bool
is_past today none = false
is_past today (some d) = ltb d today

-- CASE priority … END
abbrev pub rank : String → ℕ
rank p =
    if str_eq p "urgent"
    then 0
    else if str_eq p "work"
    then 1
    else if str_eq p "university"
    then 2
    else 3

-- an ascending order of dates, NULLS LAST
abbrev pub date_before : Option ℕ → Option ℕ → Bool
date_before none b = false
date_before (some a) none = true
date_before (some a) (some b) = ltb a b

abbrev pub date_of : Commitment → Option ℕ
date_of r = elim r.event_date [ none ↦ r.due_date | some d ↦ some d ]

-- ORDER BY the rank, COALESCE(event_date, due_date) NULLS LAST, created_at DESC
abbrev pub listed_before : Commitment → Commitment → Bool
listed_before a b =
    ltb (rank a.priority) (rank b.priority)
    || (rank a.priority == rank b.priority
        && (date_before (date_of a) (date_of b)
            || (not (date_before (date_of b) (date_of a)) && ltb b.created_at a.created_at)))

-- The WHERE of `list_pending_commitments`.
abbrev pub is_listed : Bool → ℕ → Commitment → Bool
is_listed include_past today r =
    is_pending r.status
    && (include_past || not (is_past today r.event_date || is_past today r.due_date))

unfoldable pub list_pending_commitments : ℕ → Bool → ℕ → Commitments → List Commitment
list_pending_commitments limit include_past today s =
    take limit (sort listed_before (select (is_listed include_past today) s.rows))

abbrev pub is_open : ℕ → Commitment → Bool
is_open id r = r.id == id && is_pending r.status

abbrev pub settled : Status → Option String → ℕ → Commitment → Commitment
settled status none db_now r = record r { status = status }
settled status (some via) db_now r =
    if is_scheduled status && not (str_eq via "")
    then record r { status = status; confirmed_at = some db_now; confirmed_via = some via }
    else record r { status = status }

-- Each of these gives whether a row was changed.
unfoldable pub update_commitment_status :
    ℕ → Status → Option String → ℕ → Commitments → Commitments × Bool
update_commitment_status id status confirmed_via db_now s = (
  record s { rows = update (is_open id) (settled status confirmed_via db_now) s.rows },
  any (is_open id) s.rows,
)

abbrev pub is_today : ℕ → Option ℕ → Bool
is_today today none = false
is_today today (some d) = d == today

-- a descending order, NULLS LAST
abbrev pub later_first : Option ℕ → Option ℕ → Bool
later_first none b = false
later_first (some a) none = true
later_first (some a) (some b) = ltb b a

-- ORDER BY confirmed_at DESC NULLS LAST, created_at DESC
abbrev pub confirmed_before : Commitment → Commitment → Bool
confirmed_before a b =
    later_first a.confirmed_at b.confirmed_at
    || (not (later_first b.confirmed_at a.confirmed_at) && ltb b.created_at a.created_at)

-- `day_of` is the date of an instant.
unfoldable pub list_scheduled_today : (ℕ → ℕ) → ℕ → ℕ → Commitments → List Commitment
list_scheduled_today day_of limit today s = take limit (
    sort confirmed_before (
      select
        (λ r.
          is_scheduled r.status
          && (is_today today r.event_date
              || is_today today r.due_date
              || elim r.confirmed_at [ none ↦ false | some t ↦ day_of t == today ]))
        s.rows))

-- `status <> 'needs_eval' AND confirmed_via IS DISTINCT FROM 'auto-eval'`
abbrev pub is_shown : Commitment → Bool
is_shown r =
    not (is_waiting r.status)
    && elim r.confirmed_via [ none ↦ true | some via ↦ not (str_eq via "auto-eval") ]

abbrev pub is_in : String → Commitment → Bool
is_in jid r = elim r.source_chat [ none ↦ false | some chat ↦ str_eq chat jid ]

abbrev pub created_after : Commitment → Commitment → Bool
created_after a b = ltb b.created_at a.created_at

unfoldable pub list_commitments_for_chat : String → ℕ → Commitments → List Commitment
list_commitments_for_chat jid limit s =
    take limit (sort created_after (select (λ r. is_in jid r && is_shown r) s.rows))

-- A day has 86,400,000,000 microseconds.
unfoldable pub list_commitments_for_chat_since : String → ℕ → ℕ → ℕ → Commitments → List Commitment
list_commitments_for_chat_since jid days limit db_now s = take limit (
    sort created_after (
      select (λ r. is_in jid r && is_shown r && leb db_now (r.created_at + days * 86400000000))
        s.rows))

unfoldable pub count_unnotified_pending : Commitments → ℕ
count_unnotified_pending s = count (λ r. is_pending r.status && not (is_some r.notified_at)) s.rows

-- An empty list of ids changes nothing, as the early return says.
unfoldable pub mark_pending_notified : List ℕ → ℕ → Commitments → Commitments
mark_pending_notified ids db_now s = record s {
  rows = update (λ r. contains r.id ids) (λ r. record r { notified_at = some db_now }) s.rows;
}
