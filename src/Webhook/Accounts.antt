-- ===== src/Webhook/Accounts.antt =====
-- Every message that the filter receives is kept or dropped.
use evi.Common.{
  true, ℕ, suc, zero, ◌+◌, ◌≡◌, refl, String, Bool, Option, some, List, [], ◌∷◌, length,
  length-append, ◌∙◌, take, drop, sort, insert, map, count, arith, if◌then◌else◌,
}
use evi.Common.Counts.{count-append}
use evi.Webhook.{IncomingMessage, load_seen_ids}
use evi.Webhook.Sift.{OnSome, sift-OnSome, is_comparable, Comparable, sift_ends}
use evi.Webhook.Filter.{
  Settings, Reason, Checked, DroppedMessage, Stats, Sifted, Filtered, reason_to_drop, counted,
  sift_one, sift, keep_newest, is_newer, no_stats, dropped_of, filter_for_processing,
}

-- How many of the skipped the counters say.
abbrev pub skipped : Stats → ℕ
skipped s =
    s.skipped_from_me + s.skipped_group + s.skipped_old + s.skipped_seen + s.skipped_no_ts
    + s.skipped_watermark

abbrev pub is_excess : DroppedMessage → Bool
is_excess d = elim d.reason [ Reason.max_per_webhook ↦ Bool.true | _ ↦ Bool.false ]

module _ {A : Type 0} (p : A → Bool) where
  count-insert :
      (before : A → A → Bool) (x : A) (xs : List A)
      → count p (insert before x xs) ≡ count p (x ∷ xs)
  count-insert before x [] = refl
  count-insert before x (y ∷ ys) = ground (arith, count-insert before x ys)

  count-sort : (before : A → A → Bool) (xs : List A) → count p (sort before xs) ≡ count p xs
  count-sort before [] = refl
  count-sort before (x ∷ xs) =
      omega (arith, count-insert before x (sort before xs), count-sort before xs)

  count-take : (n : ℕ) (xs : List A) → count p xs ≡ count p (take n xs) + count p (drop n xs)
  count-take zero xs = omega arith
  count-take (suc n) [] = omega arith
  count-take (suc n) (x ∷ xs) = omega (arith, count-take n xs)

module _ (c : Settings) (p : String → Bool) where
  abbrev of_message : IncomingMessage → Bool
  of_message m = p m.id

  abbrev of_dropped : DroppedMessage → Bool
  of_dropped d = p d.source_id

  count-dropped_of :
      (why : Reason) (ms : List IncomingMessage)
      → count of_dropped (map (dropped_of c why) ms) ≡ count of_message ms
  count-dropped_of why [] = refl
  count-dropped_of why (m ∷ ms) = omega (arith, count-dropped_of why ms)

  -- The messages of a sieve.
  abbrev held : Sifted → ℕ
  held s = count of_message s.candidates + count of_dropped s.dropped

  sift_one-held :
      (n : ℕ) (m : IncomingMessage) (ms : List IncomingMessage) (o : Checked) (s : Sifted)
      → held s + count of_message (m ∷ ms) ≡ n
      → OnSome (λ s'. held s' + count of_message ms ≡ n) (sift_one c m o s)
  sift_one-held n m ms Checked.candidate s h =
      omega (arith, h, count-append of_message s.candidates (m ∷ []))
  sift_one-held n m ms (Checked.drops why) s h =
      omega (arith, h, count-append of_dropped s.dropped (dropped_of c why m ∷ []))
  sift_one-held n m ms Checked.raises s h = tt

  sift-held :
      (n now : ℕ) (seen : List String) (ms : List IncomingMessage) (s : Sifted)
      → held s + count of_message ms ≡ n
      → OnSome (λ s'. held s' + 0 ≡ n) (sift c now seen ms s)
  sift-held n now seen ms s h =
      sift-OnSome c now seen (λ l s'. held s' + count of_message l ≡ n)
        (λ m l s' e. sift_one-held n m l (reason_to_drop c now seen m) s' e) ms s h

  keep_newest-held :
      (seen : List String) (file : Option (List String)) (s : Sifted)
      → count of_message (keep_newest c seen file s).kept
          + count of_dropped (keep_newest c seen file s).dropped
        ≡ held s
  unfolding keep_newest
  keep_newest-held seen file s =
      let sorted = sort (is_newer c) s.candidates in
      let excess = map (dropped_of c Reason.max_per_webhook) (drop c.max_per sorted) in
      omega (
        arith,
        count-sort of_message (is_newer c) s.candidates,
        count-take of_message c.max_per sorted,
        count-append of_dropped s.dropped excess,
        count-dropped_of Reason.max_per_webhook (drop c.max_per sorted),
      )

-- The counters of a sieve: what is dropped was counted, or came after the limit.
abbrev Balanced : ℕ → Sifted → Type 0
Balanced received s =
    (s.stats.received ≡ received) × (skipped s.stats + count is_excess s.dropped ≡ length s.dropped)

-- The counters of a result.
abbrev pub Accounts : ℕ → Filtered → Type 0
Accounts n f =
    (f.stats.received ≡ n)
    × (f.stats.kept ≡ length f.kept)
    × (skipped f.stats + count is_excess f.dropped ≡ length f.dropped)

-- What is kept and what is dropped are the messages.
abbrev pub Splits : (String → Bool) → List IncomingMessage → Filtered → Type 0
Splits p ms f =
    count (λ m. p m.id) f.kept + count (λ d. p d.source_id) f.dropped ≡ count (λ m. p m.id) ms

counted-received : (why : Reason) (s : Stats) → (counted why s).received ≡ s.received
counted-received why s = ground arith

module _ (c : Settings) (n : ℕ) where
  skipped-counted :
      (why : Reason) (m : IncomingMessage) (s : Stats)
      → skipped (counted why s) + count is_excess (dropped_of c why m ∷ []) ≡ suc (skipped s)
  skipped-counted why m s = ground arith

  sift_one-Balanced :
      (m : IncomingMessage) (o : Checked) (s : Sifted)
      → Balanced n s
      → OnSome (Balanced n) (sift_one c m o s)
  sift_one-Balanced m Checked.candidate s b = b
  sift_one-Balanced m Checked.raises s b = tt
  sift_one-Balanced m (Checked.drops why) s b = (
    counted-received why s.stats ∙ b.0,
    omega (
      arith,
      b.1,
      length-append s.dropped (dropped_of c why m ∷ []),
      count-append is_excess s.dropped (dropped_of c why m ∷ []),
      skipped-counted why m s.stats,
    ),
  )

  sift-Balanced :
      (now : ℕ) (seen : List String) (ms : List IncomingMessage) (s : Sifted)
      → Balanced n s
      → OnSome (Balanced n) (sift c now seen ms s)
  sift-Balanced now seen ms s b =
      sift-OnSome c now seen (λ l s'. Balanced n s')
        (λ m l s' b'. sift_one-Balanced m (reason_to_drop c now seen m) s' b') ms s b

  all_excess :
      (ms : List IncomingMessage)
      → count is_excess (map (dropped_of c Reason.max_per_webhook) ms)
        ≡ length (map (dropped_of c Reason.max_per_webhook) ms)
  all_excess [] = refl
  all_excess (m ∷ ms) = omega (arith, all_excess ms)

  keep_newest-Accounts :
      (seen : List String) (file : Option (List String)) (s : Sifted)
      → Balanced n s
      → Accounts n (keep_newest c seen file s)
  unfolding keep_newest
  keep_newest-Accounts seen file s b =
      let rest = drop c.max_per (sort (is_newer c) s.candidates) in
      let excess = map (dropped_of c Reason.max_per_webhook) rest in
      (
        b.0,
        refl,
        omega (
          arith,
          b.1,
          count-append is_excess s.dropped excess,
          length-append s.dropped excess,
          all_excess rest,
        ),
      )

-- Where the watermark and the time of every message has an offset, or there is none, and reading the
-- time does not overflow, the filter returns. Then every message is kept or dropped, and once: any ids
-- are met as often among the messages as among the kept and the dropped ones together. The counters say
-- how many messages were received and kept, and the skipped ones together with those that were dropped
-- after the limit are all that were dropped.
pub filter-Accounts :
    (c : Settings) (p : String → Bool) (now : ℕ) (messages : List IncomingMessage)
    (file : Option (List String))
    → is_comparable c.watermark ≡ true
    → Comparable c messages
    → (f : Filtered) × (filter_for_processing c now messages file ≡ some f)
      × Splits p messages f
      × Accounts (length messages) f
unfolding filter_for_processing
filter-Accounts c p now [] file w h = (
  record { kept = []; stats = no_stats 0; dropped = []; file = file },
  refl,
  refl,
  (refl, refl, refl),
)
filter-Accounts c p now (m ∷ ms) file w h =
    let n = length (m ∷ ms) in
    let seen = if c.dedupe then load_seen_ids file else [] in
    let start : Sifted = record { candidates = []; stats = no_stats n; dropped = [] } in
    let (s, e) = sift_ends c now seen w (m ∷ ms) start h in
    let all : held c p s + 0 ≡ count (λ x. p x.id) (m ∷ ms) =
      rw e at
        (sift-held c p (count (λ x. p x.id) (m ∷ ms)) now seen (m ∷ ms) start (omega arith)) in
    let balanced : Balanced n s =
      rw e at (sift-Balanced c n now seen (m ∷ ms) start (refl, refl)) in
    (
      keep_newest c seen file s,
      rw e refl,
      keep_newest-held c p seen file s ∙ omega (arith, all),
      keep_newest-Accounts c n seen file s balanced,
    )
