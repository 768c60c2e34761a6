-- ===== src/Session.antt =====
-- agent/services/session_memory.py and agent/memory.py: the bounded memory of each session, and the
-- lock that keeps its turns in a lane. Both maps are lists with the least recently used entry first;
-- the number of sessions is at least 1, and `str.strip` is a parameter.
pub mod Held
pub mod Memories
use evi.Common.{
  ℕ, zero, suc, ◌+◌, ◌-◌, ◌*◌, ◌/◌, String, Bool, true, false, not, ◌&&◌, ◌||◌, Option, none, some,
  List, [], ◌∷◌, ◌++◌, ltb, leb, ◌==◌, str_eq, if◌then◌else◌, any, select, find?, length, contains,
  get_or,
}

unfoldable pub normalize_session_id : (String → String) → Option String → String
normalize_session_id strip session_id =
    let sid = get_or session_id "" in
    let stripped = strip (if str_eq sid "" then "default" else sid) in
    if str_eq stripped "" then "default" else stripped

-- `_max_sessions`: the value of EVI_SESSION_MEMORY_MAX, none where it is no number; a negative number
-- counts as 0.
unfoldable pub max_sessions : Option ℕ → ℕ
max_sessions none = 32
max_sessions (some zero) = 32
max_sessions (some (suc n)) = suc n

-- A memory keeps the last messages of a session; `on_trim` names the callback.
pub record BoundedMemory {ℓ} (M : Type ℓ) : Type ℓ where
  pub session_id : String
  pub max_pairs : ℕ
  pub buffer : List M
  pub on_trim : Option ℕ

-- `deque(maxlen=n)`: an append to a full one drops the first.
abbrev pub append_bounded {ℓ} : {M : Type ℓ} → ℕ → M → List M → List M
append_bounded n x [] = if n == 0 then [] else x ∷ []
append_bounded n x (y ∷ ys) =
    if leb n (length (y ∷ ys)) then (if n == 0 then [] else ys ++ x ∷ []) else y ∷ ys ++ x ∷ []

-- With the callback that is called, where there is one.
unfoldable pub add {ℓ} : {M : Type ℓ} → M → BoundedMemory M → BoundedMemory M × Option ℕ
add message m = (
  record m { buffer = append_bounded (m.max_pairs * 2) message m.buffer },
  if leb (m.max_pairs * 2) (length m.buffer) then m.on_trim else none,
)

unfoldable pub clear {ℓ} : {M : Type ℓ} → BoundedMemory M → BoundedMemory M
clear m = record m { buffer = []; on_trim = none }

unfoldable pub pair_count {ℓ} : {M : Type ℓ} → BoundedMemory M → ℕ
pair_count m = length m.buffer / 2

abbrev pub is_session {ℓ} : {M : Type ℓ} → String → BoundedMemory M → Bool
is_session sid m = str_eq m.session_id sid

-- `_evict`
unfoldable pub evict {ℓ} : {M : Type ℓ} → ℕ → List (BoundedMemory M) → List (BoundedMemory M)
evict limit [] = []
evict limit (m ∷ ms) =
    let rest = evict limit ms in if ltb limit (length (m ∷ ms)) then rest else m ∷ ms

-- The buffer of a session, which goes to the end of the list.
abbrev pub touched {ℓ} :
    {M : Type ℓ}
    → String
    → Option (BoundedMemory M)
    → List (BoundedMemory M)
    → List (BoundedMemory M)
touched sid none ms =
    ms ++ record { session_id = sid; max_pairs = 8; buffer = []; on_trim = none } ∷ []
touched sid (some m) ms = select (λ x. not (is_session sid x)) ms ++ m ∷ []

unfoldable pub get_session_memory {ℓ} :
    {M : Type ℓ} → ℕ → String → List (BoundedMemory M) → List (BoundedMemory M)
unfolding evict
get_session_memory limit sid ms = evict limit (touched sid (find? (is_session sid) ms) ms)

unfoldable pub drop_session_memory {ℓ} :
    {M : Type ℓ} → String → List (BoundedMemory M) → List (BoundedMemory M) × Bool
drop_session_memory sid ms = (select (λ x. not (is_session sid x)) ms, any (is_session sid) ms)

pub record Lane : Type 0 where
  pub sid : String
  pub lock : ℕ

-- `next_lock` is the lock that is made next.
pub record Lanes : Type 0 where
  pub lanes : List Lane
  pub next_lock : ℕ

abbrev pub is_lane : String → Lane → Bool
is_lane sid l = str_eq l.sid sid

-- The loop that drops the oldest locks: it ends at one that is held, or at the one that was asked for.
unfoldable pub evict_lanes : ℕ → List ℕ → String → List Lane → List Lane
evict_lanes limit held sid [] = []
evict_lanes limit held sid (l ∷ ls) =
    let rest = evict_lanes limit held sid ls in
    if ltb limit (length (l ∷ ls))
    then (if is_lane sid l || contains l.lock held then l ∷ ls else rest)
    else l ∷ ls

abbrev pub taken : String → Option Lane → Lanes → Lanes × ℕ
taken sid none s = (
  record {
    lanes = s.lanes ++ record { sid = sid; lock = s.next_lock } ∷ [];
    next_lock = suc s.next_lock;
  },
  s.next_lock,
)
taken sid (some l) s =
    (record s { lanes = select (λ x. not (is_lane sid x)) s.lanes ++ l ∷ [] }, l.lock)

-- `held` are the locks that someone holds. With the lock.
unfoldable pub get_lane_lock : ℕ → List ℕ → String → Lanes → Lanes × ℕ
unfolding evict_lanes
get_lane_lock limit held sid s =
    let (s', lock) = taken sid (find? (is_lane sid) s.lanes) s in
    (record s' { lanes = evict_lanes limit held sid s'.lanes }, lock)
