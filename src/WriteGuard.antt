-- ===== src/WriteGuard.antt =====
-- The two-step deletion of agent/services/write_guard.py with the snapshots of agent/db.py, and the
-- guard of the write tools. A session is a text, the empty one where there is none; Python's
-- `str.strip` and `len`, and `_normalize`, which rests on unicodedata and re, are parameters.
pub mod Turns
pub mod Memory
pub mod Provenance
pub mod Confirm
pub mod Channels
use Prim.Native.String.{◌++◌ as cat}
use evi.Common.{
  ℕ, zero, suc, ◌+◌, ◌*◌, String, Bool, true, false, not, ◌&&◌, ◌||◌, Option, none, some, List, [],
  ◌∷◌, ltb, leb, ◌==◌, str_eq, if◌then◌else◌, take, select, length, any,
}

-- The payload of a pending deletion.
pub record Pending : Type 0 where
  pub token : String
  pub ids : List String
  pub created_turn : ℕ
  pub expires_at : ℕ

-- `pending_delete` snapshots hold a pending deletion or `{"cleared": True}`; `other` is the snapshot
-- of any other tool.
pub data Payload : Type 0 where
  pending : Pending → Payload
  cleared : Payload
  other : Payload

pub record Snapshot : Type 0 where
  pub session_id : String
  pub payload : Payload

-- The table, newest first, and the two dictionaries of the process.
pub record Guard : Type 0 where
  pub snapshots : List Snapshot
  pub staged : List (String × ℕ)
  pub last_turn : List (String × ℕ)

abbrev pub lookup : String → List (String × ℕ) → Option ℕ
lookup k [] = none
lookup k ((s, n) ∷ rest) = if str_eq s k then some n else lookup k rest

unfoldable pub remove : String → List (String × ℕ) → List (String × ℕ)
remove k d = select (λ e. not (str_eq e.0 k)) d

abbrev pub assign : String → ℕ → List (String × ℕ) → List (String × ℕ)
assign k n d = (k, n) ∷ remove k d

-- Whether the write of the snapshot returns; where it raises, nothing is written.
unfoldable pub save_tool_snapshot : Bool → String → Payload → Guard → Guard
save_tool_snapshot ok session payload g = record g {
  snapshots =
      if ok then record { session_id = session; payload = payload } ∷ g.snapshots else g.snapshots;
}

unfoldable pub load_tool_snapshots : String → ℕ → Guard → List Snapshot
load_tool_snapshots session limit g =
    take limit (select (λ r. str_eq r.session_id session) g.snapshots)

abbrev pub first_pending : List Snapshot → Option Payload
first_pending [] = none
first_pending (r ∷ rs) = elim r.payload [
  | pending p ↦ some (pending p)
  | cleared ↦ some cleared
  | other ↦ first_pending rs
]

unfoldable pub load_latest : String → Guard → Option Payload
load_latest session g = first_pending (load_tool_snapshots session 50 g)

-- TTL_SEC, in microseconds
abbrev pub ttl : ℕ
ttl = 600 * 1000000

unfoldable pub create_pending :
    Bool → String → String → List String → ℕ → ℕ → Guard → Guard × Option String
unfolding save_tool_snapshot
create_pending ok token session ids turn_seq now g =
    let payload =
      pending
        (record { token = token; ids = ids; created_turn = turn_seq; expires_at = now + ttl }) in
    let saved = save_tool_snapshot true session payload g in
    if ok
    then (record saved { staged = assign session turn_seq g.staged }, some token)
    else (g, none)

unfoldable pub clear_pending : Bool → String → Guard → Guard
unfolding save_tool_snapshot
clear_pending ok session g =
    save_tool_snapshot ok session cleared (record g { staged = remove session g.staged })

-- _MAX_SESSIONS
abbrev pub max_sessions : ℕ
max_sessions = 2000

-- `staged is not None and staged < turn_seq`
abbrev pub is_earlier : Option ℕ → ℕ → Bool
is_earlier none turn_seq = false
is_earlier (some n) turn_seq = ltb n turn_seq

unfoldable pub on_turn_end : Bool → String → Option ℕ → Guard → Guard
unfolding clear_pending
on_turn_end ok session none g = g
on_turn_end ok session (some turn_seq) g =
    let kept = if ltb max_sessions (length g.last_turn) then [] else g.last_turn in
    let noted : Guard = record g { last_turn = assign session turn_seq kept } in
    if str_eq session ""
    then g
    else if is_earlier (lookup session g.staged) turn_seq
    then clear_pending ok session noted
    else noted

pub record Texts : Type 0 where
  pub strip : String → String
  pub len : String → ℕ
  pub normalize : String → String

-- The phrases of `_CONFIRM_RE`.
abbrev pub phrases : List String
phrases =
    "sim" ∷ "s" ∷ "confirmo" ∷ "confirma" ∷ "pode apagar" ∷ "sim pode apagar" ∷ "ok pode apagar"
    ∷ "sim pode" ∷ "manda ver" ∷ "pode sim" ∷ []

abbrev pub is_phrase : String → Bool
is_phrase text =
    any (λ p. str_eq text p || str_eq text (cat p " por favor") || str_eq text (cat p " pfv"))
      phrases

-- MAX_CONFIRM_CHARS
abbrev pub max_confirm_chars : ℕ
max_confirm_chars = 30

unfoldable pub is_confirmation : Texts → String → Bool
is_confirmation x text =
    let raw = x.strip text in
    not (str_eq raw "" || ltb max_confirm_chars (x.len raw)) && is_phrase (x.normalize raw)

pub data Refusal : Type 0 where
  no_turn : Refusal
  not_verified : Refusal
  nothing_pending : Refusal
  unknown_token : Refusal
  expired : Refusal
  same_turn : Refusal
  not_next : Refusal
  not_confirmed : Refusal
  no_ids : Refusal

pub data Check : Type 0 where
  refused : Refusal → Check
  accepted : List String → Check

-- What is checked of a pending deletion, in the order of the source.
unfoldable pub check_pending : Texts → Guard → String → String → String → ℕ → ℕ → Pending → Check
check_pending x g session token user_text turn_seq now p =
    if str_eq p.token ""
    then refused nothing_pending
    else if not (str_eq p.token token)
    then refused unknown_token
    else if ltb p.expires_at now
    then refused expired
    else if leb turn_seq p.created_turn
    then refused same_turn
    else if not (elim (lookup session g.last_turn) [ none ↦ false | some n ↦ n == p.created_turn ])
    then refused not_next
    else if not (is_confirmation x user_text)
    then refused not_confirmed
    else if length p.ids == 0
    then refused no_ids
    else accepted p.ids

-- What was loaded: nothing, a pending deletion, or that it was cleared.
unfoldable pub check_latest :
    Texts → Guard → String → String → String → ℕ → ℕ → Option Payload → Check
check_latest x g session token user_text turn_seq now (some (pending p)) =
    check_pending x g session token user_text turn_seq now p
check_latest x g session token user_text turn_seq now _ = refused nothing_pending

unfoldable pub check_confirmation :
    Texts → Bool → String → String → String → Option ℕ → ℕ → Guard → Check
check_confirmation x ok session token user_text none now g = refused no_turn
check_confirmation x ok session token user_text (some turn_seq) now g =
    if str_eq session ""
    then refused no_turn
    else if not ok
    then refused not_verified
    else check_latest x g session token user_text turn_seq now (load_latest session g)
