-- ===== src/WriteGuard/Turns.antt =====
-- What happens to the guard, as lists of events with the newest first.
use evi.Common.{
  ℕ, ◌+◌, ◌≡◌, ◌⊎◌, String, Bool, true, Option, none, some, List, [], ◌∷◌, str_eq, if◌then◌else◌,
}
use evi.WriteGuard.{
  Pending, Payload, Guard, save_tool_snapshot, ttl, create_pending, clear_pending, on_turn_end,
}

-- What happens to the guard: a deletion is staged, a pending one cleared, a turn ends, another tool
-- saves a snapshot, or the process starts again. The Boolean says whether the write returns.
pub data Event : Type 0 where
  stage : Bool → String → String → List String → ℕ → ℕ → Event
  clear : Bool → String → Event
  turn_end : Bool → String → Option ℕ → Event
  snapshot : Bool → String → Event
  restart : Event

unfoldable pub step : Event → Guard → Guard
step (stage ok token session ids turn_seq now) g =
    (create_pending ok token session ids turn_seq now g).0
step (clear ok session) g = clear_pending ok session g
step (turn_end ok session turn_seq) g = on_turn_end ok session turn_seq g
step (snapshot ok session) g = save_tool_snapshot ok session Payload.other g
step restart g = record g { staged = []; last_turn = [] }

abbrev pub fresh : Guard
fresh = record { snapshots = []; staged = []; last_turn = [] }

unfoldable pub after : List Event → Guard
after [] = fresh
after (e ∷ es) = step e (after es)

-- The turn of a session that ended last.
abbrev pub last_ended : String → List Event → Option ℕ
last_ended session [] = none
last_ended session (e ∷ es) = elim e [
  | turn_end ok s (some n) ↦ if str_eq s session then some n else last_ended session es
  | _ ↦ last_ended session es
]

-- The deletion was staged by the session.
abbrev pub WasStaged : String → Pending → List Event → Type 0
WasStaged session p [] = ⊥
WasStaged session p (e ∷ es) = elim e [
  | stage true token s ids turn_seq now ↦
      ((s ≡ session)
        × (p
            ≡ record { token = token; ids = ids; created_turn = turn_seq; expires_at = now + ttl }))
      ⊎ WasStaged session p es
  | _ ↦ WasStaged session p es
]
