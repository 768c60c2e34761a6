-- ===== src/WriteGuard/Confirm.antt =====
-- What an accepted confirmation says of what happened before.
use evi.Common.{
  ℕ, ◌+◌, ◌≤◌, ◌<◌, ◌≡◌, refl, String, subst, Bool, true, false, not, Option, none, some, List, ◌∷◌,
  ltb, str_eq, eq_iff, length, if_both, arith,
}
use evi.WriteGuard.{
  Pending, Payload, Guard, lookup, save_tool_snapshot, load_tool_snapshots, load_latest, ttl,
  create_pending, on_turn_end, Texts, is_confirmation, accepted, check_pending, check_latest,
  check_confirmation,
}
use evi.WriteGuard.Turns.{Event, stage, turn_end, step, after, last_ended, WasStaged}
use evi.WriteGuard.Memory.{str_eq→≡, after-Remembers}
use evi.WriteGuard.Provenance.{load_latest-WasStaged}

-- An accepted confirmation: the deletion was staged by this session with this token and these ids, in
-- the turn of the session that ended last, which is an earlier turn, no more than ten minutes ago, and
-- the user's message is a confirmation.
pub record Follows (x : Texts) (session token text : String) (turn_seq now : ℕ) (ids : List String)
    (es : List Event) (p : Pending) : Type 0 where
  pub was_staged : WasStaged session p es
  pub same_token : p.token ≡ token
  pub same_ids : p.ids ≡ ids
  pub some_ids : 0 < length ids
  pub ended_last : last_ended session es ≡ some p.created_turn
  pub earlier : p.created_turn < turn_seq
  pub in_time : now ≤ p.expires_at
  pub confirmed : is_confirmation x text ≡ true

record Passed (x : Texts) (g : Guard) (session token text : String) (turn_seq now : ℕ)
    (ids : List String) (p : Pending) : Type 0 where
  same_token : str_eq p.token token ≡ true
  same_ids : p.ids ≡ ids
  some_ids : 0 < length p.ids
  ended_last : lookup session g.last_turn ≡ some p.created_turn
  earlier : p.created_turn < turn_seq
  in_time : now ≤ p.expires_at
  confirmed : is_confirmation x text ≡ true

check_pending-Passed :
    (x : Texts) (g : Guard) (session token text : String) (turn_seq now : ℕ) (ids : List String)
    (p : Pending)
    → check_pending x g session token text turn_seq now p ≡ accepted ids
    → Passed x g session token text turn_seq now ids p
unfolding check_pending
check_pending-Passed x g session token text turn_seq now ids p h = ground arith

passed-Follows :
    (x : Texts) (session token text : String) (turn_seq now : ℕ) (ids : List String)
    (es : List Event) (p : Pending)
    → str_eq session "" ≡ false
    → load_latest session (after es) ≡ some (Payload.pending p)
    → check_pending x (after es) session token text turn_seq now p ≡ accepted ids
    → Follows x session token text turn_seq now ids es p
passed-Follows x session token text turn_seq now ids es p named l h =
    let c = check_pending-Passed x (after es) session token text turn_seq now ids p h in
    record {
      was_staged = load_latest-WasStaged session p es l;
      same_token = str_eq→≡ p.token token c.same_token;
      same_ids = c.same_ids;
      some_ids = subst (λ t. 0 < length t) c.same_ids c.some_ids;
      ended_last = after-Remembers es session p.created_turn named c.ended_last;
      earlier = c.earlier;
      in_time = c.in_time;
      confirmed = c.confirmed;
    }

latest-Follows :
    (x : Texts) (session token text : String) (turn_seq now : ℕ) (ids : List String)
    (es : List Event) (latest : Option Payload)
    → str_eq session "" ≡ false
    → load_latest session (after es) ≡ latest
    → check_latest x (after es) session token text turn_seq now latest ≡ accepted ids
    → (p : Pending) × Follows x session token text turn_seq now ids es p
unfolding check_latest
latest-Follows x session token text turn_seq now ids es none named l h = ground arith
latest-Follows x session token text turn_seq now ids es (some (Payload.pending p)) named l h =
    (p, passed-Follows x session token text turn_seq now ids es p named l h)
latest-Follows x session token text turn_seq now ids es (some Payload.cleared) named l h =
    ground arith
latest-Follows x session token text turn_seq now ids es (some Payload.other) named l h =
    ground arith

-- Whatever happened since the first start of the process, restarts included, a confirmation is accepted only
-- for a deletion that this session staged with this token and exactly these ids, at least one, in
-- the turn of the session that ended last, an earlier one than the present, within its ten minutes,
-- and where the message of the user is a confirmation.
pub confirm-Follows :
    (x : Texts) (ok : Bool) (session token text : String) (turn_seq now : ℕ) (ids : List String)
    (es : List Event)
    → check_confirmation x ok session token text (some turn_seq) now (after es) ≡ accepted ids
    → (p : Pending) × Follows x session token text turn_seq now ids es p
unfolding check_confirmation
confirm-Follows x ok session token text turn_seq now ids es =
    let Goal : Type 0 = (p : Pending) × Follows x session token text turn_seq now ids es p in
    if_both (λ c. c ≡ accepted ids → Goal) (str_eq session "") (λ _ h. ground arith)
      (λ named.
        if_both (λ c. c ≡ accepted ids → Goal) (not ok) (λ _ h. ground arith)
          (λ _.
            latest-Follows x session token text turn_seq now ids es (load_latest session (after es))
              named refl))

-- A deletion that was staged, and whose turn then ended, with nothing else between the two and nothing
-- after them, is accepted in a turn with a higher number within the ten minutes, where session, token
-- and ids are not empty, the token is given and the message of the user is a confirmation.
pub confirm_accepted :
    (x : Texts) (ok' : Bool) (session token text : String) (ids : List String)
    (n turn_seq now later : ℕ) (es : List Event)
    → str_eq session "" ≡ false
    → str_eq token "" ≡ false
    → 0 < length ids
    → n < turn_seq
    → later ≤ now + ttl
    → is_confirmation x text ≡ true
    → check_confirmation x true session token text
        (some turn_seq)
        later
        (after (turn_end ok' session (some n) ∷ stage true token session ids n now ∷ es))
      ≡ accepted ids
unfolding check_confirmation after step on_turn_end create_pending save_tool_snapshot load_latest
    load_tool_snapshots check_pending check_latest
confirm_accepted x ok' session token text ids n turn_seq now later es named given some_id next
      in_time said =
    let self : str_eq session session ≡ true = (eq_iff session session).1 refl in
    let same : str_eq token token ≡ true = (eq_iff token token).1 refl in
    let not_before : ltb n n ≡ false = ground arith in
    rw (named, self, not_before, check_latest) (ground (arith, self, same))
