-- ===== src/Webhook/Claims.antt =====
-- What one claim, and what the filter of one webhook, does to an id that was seen lately.
use text.Mathlib.Text.{starts_with}
use evi.Common.{
  ℕ, zero, suc, ◌+◌, ◌≤◌, ◌≡◌, refl, String, Bool, true, false, not, ◌||◌, Option, none, some, List,
  [], ◌∷◌, str_eq, eq_iff, if◌then◌else◌, if_both, any, take, sort, length, length-append,
  length-sort, arith, ◌&&◌, ◌-◌, Bool-cases, inl, inr, All, All-append, All-take, All-sort,
}
use evi.Webhook.{
  IncomingMessage, has, add_ids, load_seen_ids, save_seen_ids, claim_in, claim_message_id,
}
use evi.Webhook.Filter.{
  Settings, Reason, Time, aware, Checked, Sifted, is_before, is_absent, drop_if, check_time,
  parse_ts, after_loop, reason_to_drop, sift_one, sift, keep_newest, is_newer, ids_of, no_stats,
  filter_for_processing,
}
use evi.Webhook.Sift.{OnSome, sift-OnSome}
use evi.Webhook.Route.{kept_of, file_of}
use evi.Webhook.Recent.{
  Recent, recent, recent-has, recent_mono, recent-load-save, recent-remember_id, recent-add_ids,
  recent-last, added-recent,
}

abbrev pub is_id : String → IncomingMessage → Bool
is_id id m = str_eq m.id id

ids_of-length : (ms : List IncomingMessage) → length (ids_of ms) ≤ length ms
ids_of-length [] = omega arith
ids_of-length (m ∷ ms) = ground (arith, ids_of-length ms)

module _ (id : String) where
  pub Recent_mono :
      (n k : ℕ) (file : Option (List String)) → n ≤ k → Recent id n file → Recent id k file
  Recent_mono n k file le h = recent_mono id n k (load_seen_ids file) le h

  pub claim_in-Recent :
      (n : ℕ) (dedupe : Bool) (x : String) (file : Option (List String))
      → suc n ≤ 5000
      → Recent id n file
      → Recent id (suc n) (claim_message_id dedupe x file).1
  unfolding claim_message_id claim_in
  claim_in-Recent n dedupe x file le h =
      let Kept = λ (out : Bool × Option (List String)). Recent id (suc n) out.1 in
      let stays = Recent_mono n (suc n) file (omega arith) h in
      if_both Kept (not dedupe || str_eq x "") (λ _. stays)
        (λ _.
          if_both Kept (has x (load_seen_ids file)) (λ _. stays)
            (λ _.
              recent-load-save id (suc n) _ le (recent-remember_id id n x (load_seen_ids file) h)))

  -- The id is refused.
  pub claim_in-refused :
      (n : ℕ) (file : Option (List String))
      → str_eq id "" ≡ false
      → Recent id n file
      → (claim_message_id true id file).0 ≡ false
  unfolding claim_message_id claim_in
  claim_in-refused n file filled h = rw (filled, recent-has id n (load_seen_ids file) h) refl

  pub claimed-Recent :
      (file : Option (List String))
      → str_eq id "" ≡ false
      → (claim_message_id true id file).0 ≡ true
      → Recent id 1 (claim_message_id true id file).1
  unfolding claim_message_id claim_in
  claimed-Recent file filled h = elim (Bool-cases (has id (load_seen_ids file))) [
    | inl e ↦ let no : false ≡ true = rw (filled, e) at h in absurd (ground (arith, no))
    | inr e ↦
        rw (filled, e) (recent-load-save id 1 _ (omega arith) (recent-last id (load_seen_ids file)))
  ]

  has-ids_of :
      (ms : List IncomingMessage)
      → str_eq id "" ≡ false
      → any (is_id id) ms ≡ true
      → has id (ids_of ms) ≡ true
  has-ids_of [] filled h = h
  has-ids_of (m ∷ ms) filled h =
      ground (arith, has-ids_of ms filled, eq_iff m.id id, eq_iff m.id "", eq_iff id "")

  any_none :
      (ms : List IncomingMessage) → All (λ m. is_id id m ≡ false) ms → any (is_id id) ms ≡ false
  any_none [] a = refl
  any_none (m ∷ ms) a = ground (arith, a.0, any_none ms a.1)

module _ {A : Type 0} where
  length-take : (xs : List A) (n : ℕ) → length (take n xs) ≤ length xs
  length-take xs zero = omega arith
  length-take [] (suc n) = omega arith
  length-take (x ∷ xs) (suc n) = omega (arith, length-take xs n)

module _ (c : Settings) (now : ℕ) where
  sift_one-length :
      (k : ℕ) (m : IncomingMessage) (ms : List IncomingMessage) (o : Checked) (s : Sifted)
      → length s.candidates + length (m ∷ ms) ≤ k
      → OnSome (λ s'. length s'.candidates + length ms ≤ k) (sift_one c m o s)
  sift_one-length k m ms Checked.candidate s h =
      omega (arith, h, length-append s.candidates (m ∷ []))
  sift_one-length k m ms (Checked.drops why) s h = omega (arith, h)
  sift_one-length k m ms Checked.raises s h = tt

  candidates-length :
      (k : ℕ) (seen : List String) (ms : List IncomingMessage) (s : Sifted)
      → length s.candidates + length ms ≤ k
      → OnSome (λ s'. length s'.candidates + 0 ≤ k) (sift c now seen ms s)
  candidates-length k seen ms s le =
      sift-OnSome c now seen (λ l s'. length s'.candidates + length l ≤ k)
        (λ m l s' h. sift_one-length k m l (reason_to_drop c now seen m) s' h) ms s le

  module _ (id : String) (seen : List String) where
    abbrev drops_it : Checked → Bool
    drops_it Checked.candidate = false
    drops_it o = true

    drop_if-drops :
        (o : Option Bool) (why : Reason) (rest : Checked)
        → drops_it rest ≡ true
        → drops_it (drop_if o why rest) ≡ true
    drop_if-drops none why rest h = refl
    drop_if-drops (some true) why rest h = refl
    drop_if-drops (some false) why rest h = h

    by_time :
        (m : IncomingMessage) (t : Time)
        → c.dedupe ≡ true
        → has m.id seen ≡ true
        → drops_it (
            if c.require_ts && is_absent t
            then Checked.drops Reason.no_ts
            else drop_if (is_before t c.watermark) Reason.under_watermark (
                drop_if (is_before t (aware (now - c.max_age))) Reason.old (
                  if c.dedupe && has m.id seen
                  then Checked.drops Reason.was_seen
                  else Checked.candidate)))
          ≡ true
    by_time m t on h =
        if_both (λ o. drops_it o ≡ true) (c.require_ts && is_absent t) (λ _. refl)
          (λ _.
            drop_if-drops (is_before t c.watermark) Reason.under_watermark _ (
              drop_if-drops (is_before t (aware (now - c.max_age))) Reason.old _ (rw (on, h) refl)))

    old-dropped :
        (m : IncomingMessage) (t : Time)
        → c.dedupe ≡ true
        → has m.id seen ≡ true
        → drops_it (check_time c now seen m t) ≡ true
    old-dropped m Time.overflows on h = refl
    old-dropped m Time.absent on h = by_time m Time.absent on h
    old-dropped m (Time.naive n) on h = by_time m (Time.naive n) on h
    old-dropped m (Time.aware n) on h = by_time m (Time.aware n) on h

    seen-dropped :
        (m : IncomingMessage)
        → c.dedupe ≡ true
        → has m.id seen ≡ true
        → drops_it (reason_to_drop c now seen m) ≡ true
    unfolding reason_to_drop
    seen-dropped m on h =
        let Drops : Checked → Type 0 = λ o. drops_it o ≡ true in
        if_both Drops (not (str_eq c.evi_prefix "") && starts_with (c.strip m.text) c.evi_prefix)
          (λ _. refl)
          (λ _.
            if_both Drops (c.incoming_only && m.from_me) (λ _. refl)
              (λ _.
                if_both Drops
                  ((c.skip_groups && m.is_group) && not (has m.sender c.group_whitelist))
                  (λ _. refl) (λ _. old-dropped m (parse_ts c.reader m.ts) on h)))

    abbrev Other : IncomingMessage → Type 0
    Other x = is_id id x ≡ false

    sift_one-fresh :
        (m : IncomingMessage) (o : Checked) (s : Sifted)
        → (is_id id m ≡ true → drops_it o ≡ true)
        → All Other s.candidates
        → OnSome (λ s'. All Other s'.candidates) (sift_one c m o s)
    sift_one-fresh m Checked.candidate s drops a =
        All-append Other s.candidates (m ∷ []) a (ground (arith, drops), tt)
    sift_one-fresh m (Checked.drops why) s drops a = a
    sift_one-fresh m Checked.raises s drops a = tt

    sift-fresh :
        (ms : List IncomingMessage) (s : Sifted)
        → c.dedupe ≡ true
        → has id seen ≡ true
        → All Other s.candidates
        → OnSome (λ s'. All Other s'.candidates) (sift c now seen ms s)
    sift-fresh ms s on h a =
        sift-OnSome c now seen (λ l s'. All Other s'.candidates)
          (λ m l s' all.
            sift_one-fresh m (reason_to_drop c now seen m) s'
              (λ e. let same : m.id ≡ id = (eq_iff m.id id).0 e in seen-dropped m on (rw same h))
              all)
          ms s a

  abbrev start : List IncomingMessage → Sifted
  start ms = record { candidates = []; stats = no_stats (length ms); dropped = [] }

  abbrev known : Option (List String) → List String
  known file = if c.dedupe then load_seen_ids file else []

  kept-fresh :
      (id : String) (seen : List String) (file : Option (List String)) (o : Option Sifted)
      → OnSome (λ s. All (λ x. is_id id x ≡ false) s.candidates) o
      → any (is_id id) (kept_of (after_loop c seen file o)) ≡ false
  unfolding keep_newest
  kept-fresh id seen file none a = refl
  kept-fresh id seen file (some s) a =
      let Other = λ (x : IncomingMessage). is_id id x ≡ false in
      any_none id (take c.max_per (sort (is_newer c) s.candidates))
        (All-take Other c.max_per _ (All-sort Other (is_newer c) s.candidates a))

  -- An id that was seen is not kept.
  pub filter-fresh :
      (id : String) (n : ℕ) (ms : List IncomingMessage) (file : Option (List String))
      → c.dedupe ≡ true
      → Recent id n file
      → any (is_id id) (kept_of (filter_for_processing c now ms file)) ≡ false
  unfolding filter_for_processing
  filter-fresh id n [] file on h = refl
  filter-fresh id n (m ∷ ms) file on h =
      let was : has id (known file) ≡ true = rw on (recent-has id n (load_seen_ids file) h) in
      kept-fresh id (known file) file (sift c now (known file) (m ∷ ms) (start (m ∷ ms)))
        (sift-fresh id (known file) (m ∷ ms) (start (m ∷ ms)) on was tt)

  taken-length :
      (k : ℕ) (seen : List String) (file : Option (List String)) (o : Option Sifted)
      → OnSome (λ s. length s.candidates + 0 ≤ k) o
      → length (kept_of (after_loop c seen file o)) ≤ k
  unfolding keep_newest
  taken-length k seen file none h = omega arith
  taken-length k seen file (some s) h = omega (
    arith,
    h,
    length-sort (is_newer c) s.candidates,
    length-take (sort (is_newer c) s.candidates) c.max_per,
  )

  kept-length :
      (m : IncomingMessage) (ms : List IncomingMessage) (file : Option (List String))
      → length (kept_of (filter_for_processing c now (m ∷ ms) file)) ≤ length (m ∷ ms)
  unfolding filter_for_processing
  kept-length m ms file =
      taken-length (length (m ∷ ms)) (known file) file _
        (candidates-length (length (m ∷ ms)) (known file) (m ∷ ms) (start (m ∷ ms)) (omega arith))

  -- The file after the loop.
  saved-Recent :
      (id : String) (n k : ℕ) (file : Option (List String)) (s : Sifted)
      → c.dedupe ≡ true
      → n ≤ k
      → k ≤ 5000
      → recent id n (add_ids (ids_of (keep_newest c (known file) file s).kept) (load_seen_ids file))
        ≡ true
      → Recent id k (keep_newest c (known file) file s).file
  unfolding keep_newest
  saved-Recent id n k file s on le room h =
      let ids = ids_of (take c.max_per (sort (is_newer c) s.candidates)) in
      let saved : Recent id k (save_seen_ids (add_ids ids (load_seen_ids file))) =
        recent-load-save id k _ room (recent_mono id n k _ le h) in
      rw on (rw on at saved)

  loop-Recent :
      (id : String) (n k : ℕ) (file : Option (List String)) (o : Option Sifted)
      → c.dedupe ≡ true
      → n + length (kept_of (after_loop c (known file) file o)) ≤ k
      → k ≤ 5000
      → Recent id n file
      → Recent id k (file_of file (after_loop c (known file) file o))
  loop-Recent id n k file none on le room h = Recent_mono id n k file (omega (arith, le)) h
  loop-Recent id n k file (some s) on le room h =
      let kept = (keep_newest c (known file) file s).kept in
      saved-Recent id (n + length (ids_of kept)) k file s on (omega (arith, le, ids_of-length kept))
        room (recent-add_ids id n (ids_of kept) (load_seen_ids file) h)

  -- What the file holds stays as recent as the number of messages allows.
  pub filter-Recent :
      (id : String) (n : ℕ) (ms : List IncomingMessage) (file : Option (List String))
      → c.dedupe ≡ true
      → n + length ms ≤ 5000
      → Recent id n file
      → Recent id (n + length ms) (file_of file (filter_for_processing c now ms file))
  unfolding filter_for_processing
  filter-Recent id n [] file on le h = Recent_mono id n (n + 0) file (omega arith) h
  filter-Recent id n (m ∷ ms) file on le h =
      loop-Recent id n (n + length (m ∷ ms)) file
        (sift c now (known file) (m ∷ ms) (start (m ∷ ms))) on
        (omega (arith, kept-length m ms file)) le h

  taken-Recent :
      (id : String) (k : ℕ) (file : Option (List String)) (o : Option Sifted)
      → c.dedupe ≡ true
      → length (kept_of (after_loop c (known file) file o)) ≤ k
      → k ≤ 5000
      → str_eq id "" ≡ false
      → any (is_id id) (kept_of (after_loop c (known file) file o)) ≡ true
      → Recent id k (file_of file (after_loop c (known file) file o))
  taken-Recent id k file none on le room filled h = absurd (cc h)
  taken-Recent id k file (some s) on le room filled h =
      let kept = (keep_newest c (known file) file s).kept in
      saved-Recent id (length (ids_of kept)) k file s on (omega (arith, le, ids_of-length kept))
        room (added-recent id (ids_of kept) (load_seen_ids file) (has-ids_of id kept filled h))

  -- What is kept is in the file.
  pub kept-Recent :
      (id : String) (ms : List IncomingMessage) (file : Option (List String))
      → c.dedupe ≡ true
      → length ms ≤ 5000
      → str_eq id "" ≡ false
      → any (is_id id) (kept_of (filter_for_processing c now ms file)) ≡ true
      → Recent id (length ms) (file_of file (filter_for_processing c now ms file))
  unfolding filter_for_processing
  kept-Recent id [] file on le filled h = absurd (cc h)
  kept-Recent id (m ∷ ms) file on le filled h =
      taken-Recent id (length (m ∷ ms)) file (sift c now (known file) (m ∷ ms) (start (m ∷ ms))) on
        (kept-length m ms file) le filled h
