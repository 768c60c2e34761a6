-- ===== src/Probe.antt =====
-- The daily checks: the tables `probe_log`, `probe_notified` and `source_status` of agent/db.py, and
-- `_notify` and `run_probe` of agent/services/probe.py. What a check finds, what Telegram answers and
-- which calls of the database return are inputs.
pub mod Warnings
pub mod Outages
use evi.Common.{
  ℕ, suc, String, Bool, true, false, not, ◌&&◌, ◌||◌, Option, none, some, List, [], ◌∷◌, ◌++◌, ltb,
  leb, ◌==◌, str_eq, if◌then◌else◌, any, update, select, sort, is_some, find?,
}

pub record Check : Type 0 where
  pub id : ℕ
  pub day : ℕ
  pub check_name : String
  pub ok : Bool
  pub reason : Option String
  pub ms : Option ℕ
  pub ts : ℕ
  pub notified : Bool

pub record Source : Type 0 where
  pub source : String
  pub ok : Bool
  pub reason : Option String
  pub down_since : Option ℕ
  pub checked_at : ℕ

pub record Probes : Type 0 where
  pub log : List Check
  pub next_id : ℕ
  -- PRIMARY KEY (day, check_name)
  pub claims : List (ℕ × String)
  pub sources : List Source

unfoldable pub insert_probe : ℕ → String → Bool → Option String → Option ℕ → ℕ → Probes → Probes × ℕ
insert_probe day check_name ok reason ms db_now s = (
  record s {
    log =
        s.log
        ++ record {
          id = s.next_id;
          day = day;
          check_name = check_name;
          ok = ok;
          reason = reason;
          ms = ms;
          ts = db_now;
          notified = false;
        }
          ∷ [];
    next_id = suc s.next_id;
  },
  s.next_id,
)

abbrev pub is_check : ℕ → String → Check → Bool
is_check day check_name r = r.day == day && str_eq r.check_name check_name

unfoldable pub probe_already_notified : ℕ → String → Probes → Bool
probe_already_notified day check_name s = any (λ r. is_check day check_name r && r.notified) s.log

abbrev pub is_claim : ℕ → String → ℕ × String → Bool
is_claim day check_name (d, c) = d == day && str_eq c check_name

unfoldable pub claim_probe_notification : ℕ → String → Probes → Probes × Bool
claim_probe_notification day check_name s =
    if any (is_claim day check_name) s.claims
    then (s, false)
    else (record s { claims = s.claims ++ (day, check_name) ∷ [] }, true)

unfoldable pub release_probe_notification : ℕ → String → Probes → Probes
release_probe_notification day check_name s = record s {
  claims = select (λ c. not (is_claim day check_name c)) s.claims;
}

unfoldable pub mark_probe_notified : ℕ → String → Probes → Probes
mark_probe_notified day check_name s = record s {
  log = update (is_check day check_name) (λ r. record r { notified = true }) s.log;
}

abbrev pub is_source : String → Source → Bool
is_source source r = str_eq r.source source

-- What the insert gives, and what it makes of a row that is there.
abbrev pub first_status : String → Bool → Option String → ℕ → Source
first_status source ok reason at = record {
  source = source;
  ok = ok;
  reason = reason;
  down_since = if ok then none else some at;
  checked_at = at;
}

abbrev pub next_status : Bool → Option String → ℕ → Source → Source
next_status ok reason at r = record r {
  ok = ok;
  reason = reason;
  down_since =
      if ok then none else if r.ok || not (is_some r.down_since) then some at else r.down_since;
  checked_at = at;
}

-- `at` is the time that the caller gives, or that of the database.
unfoldable pub record_source : String → Bool → Option String → ℕ → List Source → List Source
record_source source ok reason at rows =
    if any (is_source source) rows
    then update (is_source source) (next_status ok reason at) rows
    else rows ++ first_status source ok reason at ∷ []

-- The older outage goes first; a text order is given for the names.
abbrev pub down_before : (String → String → Bool) → Source → Source → Bool
down_before text_before a b = elim a.down_since [
  | none ↦ false
  | some t ↦ elim b.down_since [
    | none ↦ true
    | some u ↦ ltb t u || (t == u && text_before a.source b.source)
  ]
]

unfoldable pub list_sources_down : (String → String → Bool) → List Source → List Source
list_sources_down text_before rows = sort (down_before text_before) (select (λ r. not r.ok) rows)

abbrev pub earlier : Check → Check → Bool
earlier a b = ltb a.ts b.ts || (a.ts == b.ts && ltb a.id b.id)

unfoldable pub list_probes : ℕ → ℕ → Probes → List Check
list_probes since until s = sort earlier (select (λ r. leb since r.day && leb r.day until) s.log)

pub data Answer : Type 0 where
  delivered refused raises : Answer

-- What happens to the calls of one warning.
pub record Calls : Type 0 where
  pub claim_ok : Bool
  pub answer : Answer
  pub release_ok : Bool
  pub mark_ok : Bool
  -- the release of the handler
  pub rescue_ok : Bool

pub record Warned : Type 0 where
  pub store : Probes
  -- what `_notify` returns, and whether Telegram delivered a warning
  pub result : Bool
  pub sent : Bool

-- The handler of an exception after the claim.
abbrev pub rescue : Calls → ℕ → String → Bool → Probes → Warned
rescue c day check sent s = record {
  store = if c.rescue_ok then release_probe_notification day check s else s;
  result = false;
  sent = sent;
}

abbrev pub after_answer : Calls → ℕ → String → Answer → Probes → Warned
after_answer c day check delivered s =
    if c.mark_ok
    then record { store = mark_probe_notified day check s; result = true; sent = true }
    else rescue c day check true s
after_answer c day check refused s =
    if c.release_ok
    then record { store = release_probe_notification day check s; result = false; sent = false }
    else rescue c day check false s
after_answer c day check raises s = rescue c day check false s

unfoldable pub notify : Calls → ℕ → String → Probes → Warned
unfolding claim_probe_notification
notify c day check s =
    let (s', claimed) = claim_probe_notification day check s in
    if str_eq check "telegram" || not c.claim_ok || not claimed
    then record { store = s; result = false; sent = false }
    else after_answer c day check c.answer s'

-- What a check gives.
pub record Found : Type 0 where
  pub ok : Bool
  pub reason : String

-- One check of a run: both tries, and what happens to its calls.
pub record Run : Type 0 where
  pub check : String
  pub first : Found
  pub second : Found
  pub ms : ℕ
  pub db_now : ℕ
  pub insert_ok : Bool
  pub source_ok : Bool
  pub calls : Calls

pub record Result : Type 0 where
  pub check : String
  pub ok : Bool
  pub reason : Option String
  pub notified : Bool
  pub sent : Bool

-- A check that failed is tried once more, but for Telegram.
abbrev pub found : Run → Found
found r = if not r.first.ok && not (str_eq r.check "telegram") then r.second else r.first

abbrev pub reason_of : Found → Option String
reason_of f =
    if f.ok then none else some (if str_eq f.reason "" then "upstream_error" else f.reason)

abbrev pub logged : ℕ → Run → Probes → Probes
logged day r s =
    let f = found r in
    let s' =
      if r.insert_ok
      then (insert_probe day r.check f.ok (reason_of f) (some r.ms) r.db_now s).0
      else s in
    if r.source_ok
    then record s' { sources = record_source r.check f.ok (reason_of f) r.db_now s'.sources }
    else s'

unfoldable pub run_check : ℕ → Run → Probes → Probes × Result
unfolding insert_probe record_source notify
run_check day r s =
    let f = found r in
    let s' = logged day r s in
    let w = notify r.calls day r.check s' in
    if f.ok
    then (s', record { check = r.check; ok = true; reason = none; notified = false; sent = false })
    else (
      w.store,
      record {
        check = r.check;
        ok = false;
        reason = reason_of f;
        notified = w.result;
        sent = w.sent;
      },
    )

-- The results, and at the end the table.
unfoldable pub run_probe : ℕ → List Run → Probes → Probes × List Result
unfolding run_check
run_probe day [] s = (s, [])
run_probe day (r ∷ rs) s =
    let (s', result) = run_check day r s in
    let (end, results) = run_probe day rs s' in (end, result ∷ results)
