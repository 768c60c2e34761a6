-- ===== src/Webhook/Sift.antt =====
-- The loop of the filter in agent/services/evolution_filter.py: what every message keeps, and when it
-- runs to its end.
use text.Mathlib.Text.{starts_with}
use evi.Common.{
  ℕ, ◌-◌, ◌≡◌, refl, String, Bool, true, false, Option, none, some, List, [], ◌∷◌, ◌++◌, arith, All,
  if_both, not, ◌&&◌, if◌then◌else◌, ltb, str_eq,
}
use evi.Webhook.{IncomingMessage, has}
use evi.Webhook.Filter.{
  Settings, Reason, Time, aware, Checked, Sifted, is_before, drop_if, counted, dropped_of, parse_ts,
  check_time, reason_to_drop, sift_one, sift,
}

-- A statement of what is there.
abbrev pub OnSome : {A : Type 0} → (A → Type 0) → Option A → Type 0
OnSome P none = Unit
OnSome P (some a) = P a

module _ (c : Settings) (now : ℕ) (seen : List String) where
  -- What each message carries on, the loop does.
  pub sift-OnSome :
      (P : List IncomingMessage → Sifted → Type 0)
      → ((m : IncomingMessage) (ms : List IncomingMessage) (s : Sifted)
          → P (m ∷ ms) s
          → OnSome (P ms) (sift_one c m (reason_to_drop c now seen m) s))
      → (ms : List IncomingMessage) (s : Sifted) → P ms s
      → OnSome (P []) (sift c now seen ms s)
  unfolding sift
  sift-OnSome P step [] s p = p
  sift-OnSome P step (m ∷ ms) s p =
      onward (sift_one c m (reason_to_drop c now seen m) s) (step m ms s p)
        (λ s' q. sift-OnSome P step ms s' q)
    where
      onward :
          (o : Option Sifted)
          → OnSome (P ms) o
          → ((s' : Sifted) → P ms s' → OnSome (P []) (sift c now seen ms s'))
          → OnSome (P []) (elim o [ none ↦ none | some s' ↦ sift c now seen ms s' ])
      onward none q rest = tt
      onward (some s') q rest = rest s' q

-- A time that the filter can compare with the present: none, or one with an offset.
abbrev pub is_comparable : Time → Bool
is_comparable Time.absent = true
is_comparable (Time.aware t) = true
is_comparable t = false

abbrev pub Comparable : Settings → List IncomingMessage → Type 0
Comparable c ms = All (λ m. is_comparable (parse_ts c.reader m.ts) ≡ true) ms

abbrev does_raise : Checked → Bool
does_raise Checked.raises = true
does_raise o = false

drop_if-goes :
    (b : Bool) (why : Reason) (o : Checked)
    → does_raise o ≡ false
    → does_raise (drop_if (some b) why o) ≡ false
drop_if-goes true why o h = refl
drop_if-goes false why o h = h

-- A time with an offset compares with any watermark that has one.
compared :
    (t : ℕ) (w : Time) → is_comparable w ≡ true → (b : Bool) × (is_before (aware t) w ≡ some b)
compared t Time.absent h = (false, refl)
compared t (Time.aware l) h = (ltb t l, refl)
compared t (Time.naive l) h = absurd (cc h)
compared t Time.overflows h = absurd (cc h)

module _ (c : Settings) (now : ℕ) (seen : List String) (w : is_comparable c.watermark ≡ true) where
  check_time-goes :
      (m : IncomingMessage) (t : Time)
      → is_comparable t ≡ true
      → does_raise (check_time c now seen m t) ≡ false
  check_time-goes m Time.absent h = ground arith
  check_time-goes m (Time.aware t) h =
      let (b, e) = compared t c.watermark w in
      let last : Checked =
        if c.dedupe && has m.id seen then Checked.drops Reason.was_seen else Checked.candidate in
      let in_age =
        drop_if-goes (ltb t (now - c.max_age)) Reason.old last (
          if_both (λ o. does_raise o ≡ false) (c.dedupe && has m.id seen) (λ _. refl)
            (λ _. refl)) in
      if_both (λ o. does_raise o ≡ false) (c.require_ts && false) (λ _. refl)
        (λ _. rw e (
          drop_if-goes b Reason.under_watermark
            (drop_if (some (ltb t (now - c.max_age))) Reason.old last) in_age))
  check_time-goes m (Time.naive t) h = absurd (cc h)
  check_time-goes m Time.overflows h = absurd (cc h)

  reason_to_drop-goes :
      (m : IncomingMessage)
      → is_comparable (parse_ts c.reader m.ts) ≡ true
      → does_raise (reason_to_drop c now seen m) ≡ false
  unfolding reason_to_drop
  reason_to_drop-goes m h =
      let Goes : Checked → Type 0 = λ o. does_raise o ≡ false in
      if_both Goes (not (str_eq c.evi_prefix "") && starts_with (c.strip m.text) c.evi_prefix)
        (λ _. refl)
        (λ _.
          if_both Goes (c.incoming_only && m.from_me) (λ _. refl)
            (λ _.
              if_both Goes ((c.skip_groups && m.is_group) && not (has m.sender c.group_whitelist))
                (λ _. refl) (λ _. check_time-goes m (parse_ts c.reader m.ts) h)))

  sift_one-goes :
      (m : IncomingMessage) (o : Checked) (s : Sifted)
      → does_raise o ≡ false
      → (s' : Sifted) × (sift_one c m o s ≡ some s')
  sift_one-goes m Checked.candidate s h = (record s { candidates = s.candidates ++ m ∷ [] }, refl)
  sift_one-goes m (Checked.drops why) s h = (
    record s { stats = counted why s.stats; dropped = s.dropped ++ dropped_of c why m ∷ [] },
    refl,
  )
  sift_one-goes m Checked.raises s h = absurd (cc h)

  -- The loop runs to its end where every time has an offset, or there is none.
  pub sift_ends :
      (ms : List IncomingMessage) (s : Sifted)
      → Comparable c ms
      → (s' : Sifted) × (sift c now seen ms s ≡ some s')
  unfolding sift
  sift_ends [] s h = (s, refl)
  sift_ends (m ∷ ms) s h =
      let (s1, e) = sift_one-goes m (reason_to_drop c now seen m) s (reason_to_drop-goes m h.0) in
      rw (sift, e) (sift_ends ms s1 h.1)
