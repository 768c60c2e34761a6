-- ===== src/Briefing.antt =====
-- The table `briefing_log` of agent/db.py: one row for each day and kind of briefing. A day is its
-- ordinal; the sections stand as what a delivery reports of each.
pub mod Ops
pub mod Items
pub mod Volume
pub mod Fit
pub mod Buttons
pub mod Deliver
pub mod Once
pub mod Resolve
pub mod Numbers
pub mod Health
use evi.Common.{
  ℕ, suc, ◌+◌, ◌-◌, ◌*◌, String, Bool, true, false, not, ◌&&◌, ◌||◌, Option, none, some, List, [],
  ◌∷◌, ◌++◌, ltb, leb, ◌==◌, str_eq, if◌then◌else◌, is_some, update, any, select, find?, map,
}

pub record Report : Type 0 where
  pub key : String
  pub count : ℕ
  pub error : String

pub record Entry : Type 0 where
  pub id : ℕ
  pub day : ℕ
  pub kind : String
  pub sent_at : ℕ
  pub ok : Bool
  pub sections : List Report
  pub replied_at : Option ℕ
  pub feedback : Option String

pub record Log : Type 0 where
  pub rows : List Entry
  pub next_id : ℕ

-- UNIQUE (day, kind)
abbrev pub is_for : ℕ → String → Entry → Bool
is_for day kind r = r.day == day && str_eq r.kind kind

abbrev pub entry : ℕ → ℕ → String → Bool → List Report → ℕ → Entry
entry id day kind ok sections db_now = record {
  id = id;
  day = day;
  kind = kind;
  sent_at = db_now;
  ok = ok;
  sections = sections;
  replied_at = none;
  feedback = none;
}

abbrev pub minute_us : ℕ
minute_us = 60000000

-- A failed or abandoned attempt that is older than `stale_minutes`.
abbrev pub is_abandoned : ℕ → ℕ → Entry → Bool
is_abandoned stale_minutes db_now r = not r.ok && ltb (r.sent_at + stale_minutes * minute_us) db_now

abbrev pub id_of : Option Entry → Option ℕ
id_of none = none
id_of (some r) = some r.id

-- The sequence of the ids moves on whether the row is inserted or not.
unfoldable pub claim_briefing : ℕ → String → ℕ → ℕ → Log → Log × Option ℕ
claim_briefing day kind stale_minutes db_now s =
    if any (is_for day kind) s.rows
    then (
      record s {
        rows =
            update (λ r. is_for day kind r && is_abandoned stale_minutes db_now r)
              (λ r. record r { sent_at = db_now }) s.rows;
        next_id = suc s.next_id;
      },
      id_of (find? (λ r. is_for day kind r && is_abandoned stale_minutes db_now r) s.rows),
    )
    else (
      record s {
        rows = s.rows ++ entry s.next_id day kind false [] db_now ∷ [];
        next_id = suc s.next_id;
      },
      some s.next_id,
    )

-- DO UPDATE SET …; a failed attempt on a row that is not ok is dated back by a day.
abbrev pub recorded : Bool → List Report → ℕ → Entry → Entry
recorded ok sections db_now r = record r {
  ok = r.ok || ok;
  sections = sections;
  sent_at = if ok then db_now else if r.ok then r.sent_at else db_now - 1440 * minute_us;
  replied_at = if ok then none else r.replied_at;
}

unfoldable pub record_briefing : ℕ → String → Bool → List Report → ℕ → Log → Log × Option ℕ
record_briefing day kind ok sections db_now s =
    if any (is_for day kind) s.rows
    then (
      record s {
        rows = update (is_for day kind) (recorded ok sections db_now) s.rows;
        next_id = suc s.next_id;
      },
      id_of (find? (is_for day kind) s.rows),
    )
    else (
      record s {
        rows = s.rows ++ entry s.next_id day kind ok sections db_now ∷ [];
        next_id = suc s.next_id;
      },
      some s.next_id,
    )

unfoldable pub briefing_sent_today : ℕ → String → Log → Bool
briefing_sent_today day kind s = any (λ r. is_for day kind r && r.ok) s.rows

unfoldable pub get_briefing : ℕ → String → Log → Option Entry
get_briefing day kind s = find? (is_for day kind) s.rows

abbrev pub is_unanswered : Entry → Bool
is_unanswered r = r.ok && not (is_some r.replied_at)

abbrev pub in_window : ℕ → ℕ → Entry → Bool
in_window hours db_now r = is_unanswered r && leb db_now (r.sent_at + hours * 60 * minute_us)

abbrev pub replied : ℕ → Entry → Entry
replied db_now r = record r { replied_at = some db_now }

-- With the kinds that were marked.
unfoldable pub mark_briefing_replied_window : ℕ → ℕ → Log → Log × List String
mark_briefing_replied_window hours db_now s = (
  record s { rows = update (in_window hours db_now) (replied db_now) s.rows },
  map (λ r. r.kind) (select (in_window hours db_now) s.rows),
)

unfoldable pub mark_briefing_replied : ℕ → String → ℕ → Log → Log × Bool
mark_briefing_replied day kind db_now s = (
  record s { rows = update (λ r. is_for day kind r && is_unanswered r) (replied db_now) s.rows },
  any (λ r. is_for day kind r && is_unanswered r) s.rows,
)

unfoldable pub set_briefing_feedback : ℕ → String → String → Log → Log × Bool
set_briefing_feedback day kind value s =
    if str_eq value "up" || str_eq value "down"
    then (
      record s { rows = update (is_for day kind) (λ r. record r { feedback = some value }) s.rows },
      any (is_for day kind) s.rows,
    )
    else (s, false)
