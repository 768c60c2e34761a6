-- ===== src/Webhook/Routing.antt =====
-- What the loop over the messages of one webhook, and the filter after it, do to an id.
use evi.Common.{
  ℕ, suc, ◌+◌, ◌≤◌, ◌≡◌, refl, String, Bool, true, false, not, ◌&&◌, Option, List, [], ◌∷◌, ◌++◌,
  str_eq, eq_iff, if_both, any, count, length, length-append, arith, Bool-cases, inl, inr, ◌⊎◌,
}
use evi.Common.Counts.{count-append}
use evi.Webhook.{IncomingMessage, has, claim_message_id}
use evi.Webhook.Filter.{Settings, filter_for_processing}
use evi.Webhook.Recent.{Recent}
use evi.Webhook.Claims.{
  is_id, Recent_mono, claim_in-Recent, claim_in-refused, claimed-Recent, filter-fresh,
  filter-Recent, kept-Recent,
}
use evi.Webhook.Route.{
  file_of, Control, Routed, Handled, commanded, route_one, route, evolution_webhook,
}

-- What a step of the loop may do.
route_one-cases :
    (P : Routed → Type 0) (c : Settings) (ctl : Control) (m : IncomingMessage) (r : Routed)
    → P r
    → P (record r { audio_activity = r.audio_activity ++ m ∷ [] })
    → P (record r { ingest_raw = r.ingest_raw ++ m ∷ [] })
    → P (commanded m (claim_message_id c.dedupe m.id r.file) r)
    → P (route_one c ctl m r)
unfolding route_one
route_one-cases P c ctl m r stays heard read taken =
    if_both P (has m.sender ctl.jids)
      (λ _.
        if_both P (m.is_group && not m.from_me) (λ _. stays)
          (λ _. if_both P (ctl.is_bot m.text) (λ _. stays) (λ _. taken)))
      (λ _. if_both P (str_eq m.kind "audio") (λ _. heard) (λ _. read))

module _ (id : String) where
  -- The commands with the id.
  abbrev commands : Routed → ℕ
  commands r = count (is_id id) r.control

  -- Of `n` messages, those that were claimed and those that go to the filter.
  abbrev Room : ℕ → Routed → Type 0
  Room n r = (k : ℕ) × Recent id k r.file × (k + length r.ingest_raw ≤ n)

  abbrev Settled : ℕ → ℕ → Routed → Type 0
  Settled q n r = (commands r ≡ q) × Room n r

  commanded-Settled :
      (q n : ℕ) (m : IncomingMessage) (claimed : Bool × Option (List String)) (r : Routed) (k : ℕ)
      → (is_id id m ≡ true → claimed.0 ≡ false)
      → Recent id (suc k) claimed.1
      → k + length r.ingest_raw ≤ n
      → commands r ≡ q
      → Settled q (suc n) (commanded m claimed r)
  commanded-Settled q n m (true, file) r k refused h room e = (
    omega (arith, e, count-append (is_id id) r.control (m ∷ []), other),
    (suc k, h, omega (arith, room)),
  )
    where
      other : count (is_id id) (m ∷ []) ≡ 0
      other = ground (arith, refused)
  commanded-Settled q n m (false, file) r k refused h room e = (e, (suc k, h, omega (arith, room)))

  module _ (c : Settings) (ctl : Control) (on : c.dedupe ≡ true)
      (filled : str_eq id "" ≡ false) where
    refused :
        (n : ℕ) (m : IncomingMessage) (r : Routed)
        → Recent id n r.file
        → is_id id m ≡ true
        → (claim_message_id c.dedupe m.id r.file).0 ≡ false
    refused n m r h e =
        let same : m.id ≡ id = (eq_iff m.id id).0 e in
        rw (on, same) (claim_in-refused id n r.file filled h)

    route_one-Settled :
        (q n : ℕ) (m : IncomingMessage) (r : Routed)
        → n + 1 ≤ 5000
        → Settled q n r
        → Settled q (suc n) (route_one c ctl m r)
    route_one-Settled q n m r le (e, (k, h, room)) =
        let grown = length-append r.ingest_raw (m ∷ []) in
        let later : k + length r.ingest_raw ≤ suc n = omega (arith, room) in
        route_one-cases (Settled q (suc n)) c ctl m r (e, (k, h, later)) (e, (k, h, later))
          (e, (k, h, omega (arith, room, grown)))
          (commanded-Settled q n m (claim_message_id c.dedupe m.id r.file) r k (refused k m r h)
            (claim_in-Recent id k c.dedupe m.id r.file (omega (arith, le, room)) h) room e)

    route-Settled :
        (q n : ℕ) (ms : List IncomingMessage) (r : Routed)
        → n + length ms ≤ 5000
        → Settled q n r
        → Settled q (n + length ms) (route c ctl ms r)
    unfolding route
    route-Settled q n [] r le (e, (k, h, room)) = (e, (k, h, omega (arith, room)))
    route-Settled q n (m ∷ ms) r le s =
        let rest =
          route-Settled q (suc n) ms (route_one c ctl m r) (omega (arith, le))
            (route_one-Settled q n m r (omega (arith, le)) s) in
        (rest.0, (rest.1.0, rest.1.1, omega (arith, rest.1.2)))

    -- No command with the id yet, or one, which was claimed.
    abbrev Progress : ℕ → Routed → Type 0
    Progress n r = (length r.ingest_raw ≤ n) × ((commands r ≡ 0) ⊎ Settled 1 n r)

    mono-Progress : (n k : ℕ) (r : Routed) → n ≤ k → Progress n r → Progress k r
    mono-Progress n k r le (few, inl e) = (omega (arith, few, le), inl e)
    mono-Progress n k r le (few, inr (e, (j, h, room))) =
        (omega (arith, few, le), inr (e, (j, h, omega (arith, room, le))))

    commanded-Progress :
        (n : ℕ) (m : IncomingMessage) (claimed : Bool × Option (List String)) (r : Routed)
        → (is_id id m ≡ true → claimed.0 ≡ true → Recent id 1 claimed.1)
        → length r.ingest_raw ≤ n
        → commands r ≡ 0
        → Progress (suc n) (commanded m claimed r)
    commanded-Progress n m (true, file) r fresh few e =
        let counts = count-append (is_id id) r.control (m ∷ []) in
        elim (Bool-cases (is_id id m)) [
          | inl own ↦ (
            omega (arith, few),
            inr (ground (arith, counts, e, own), (1, fresh own refl, omega (arith, few))),
          )
          | inr other ↦ (omega (arith, few), inl (ground (arith, counts, e, other)))
        ]
    commanded-Progress n m (false, file) r fresh few e = (omega (arith, few), inl e)

    fresh :
        (m : IncomingMessage) (r : Routed)
        → is_id id m ≡ true
        → (claim_message_id c.dedupe m.id r.file).0 ≡ true
        → Recent id 1 (claim_message_id c.dedupe m.id r.file).1
    fresh m r own =
        let same : m.id ≡ id = (eq_iff m.id id).0 own in
        rw (on, same) (claimed-Recent id r.file filled)

    route_one-Progress :
        (n : ℕ) (m : IncomingMessage) (r : Routed)
        → n + 1 ≤ 5000
        → Progress n r
        → Progress (suc n) (route_one c ctl m r)
    route_one-Progress n m r le (few, inl e) =
        let grown = length-append r.ingest_raw (m ∷ []) in
        route_one-cases (Progress (suc n)) c ctl m r (omega (arith, few), inl e)
          (omega (arith, few), inl e) (omega (arith, few, grown), inl e)
          (commanded-Progress n m (claim_message_id c.dedupe m.id r.file) r (fresh m r) few e)
    route_one-Progress n m r le (few, inr s) =
        let (e, (k, h, room)) = route_one-Settled 1 n m r le s in
        (omega (arith, room), inr (e, (k, h, room)))

    route-Progress :
        (n : ℕ) (ms : List IncomingMessage) (r : Routed)
        → n + length ms ≤ 5000
        → Progress n r
        → Progress (n + length ms) (route c ctl ms r)
    unfolding route
    route-Progress n [] r le p = mono-Progress n (n + 0) r (omega arith) p
    route-Progress n (m ∷ ms) r le p =
        mono-Progress (suc n + length ms) (n + suc (length ms))
          (route c ctl ms (route_one c ctl m r)) (omega arith)
          (route-Progress (suc n) ms (route_one c ctl m r) (omega (arith, le))
            (route_one-Progress n m r (omega (arith, le)) p))

    abbrev arrived : Option (List String) → Routed
    arrived file = record { control = []; ingest_raw = []; audio_activity = []; file = file }

    abbrev pub SeenAgain : Handled → Type 0
    SeenAgain out = (count (is_id id) out.control ≡ 0) × (any (is_id id) out.kept ≡ false)

    filtered-Recent :
        (now n : ℕ) (r : Routed)
        → n ≤ 5000
        → Room n r
        → Recent id n (file_of r.file (filter_for_processing c now r.ingest_raw r.file))
    filtered-Recent now n r le (k, h, room) =
        Recent_mono id (k + length r.ingest_raw) n _ room
          (filter-Recent c now id k r.ingest_raw r.file on (omega (arith, le, room)) h)

    -- An id that was seen is not handled, and stays in the file.
    pub webhook-Recent :
        (now n : ℕ) (ms : List IncomingMessage) (file : Option (List String))
        → n + length ms ≤ 5000
        → Recent id n file
        → SeenAgain (evolution_webhook c ctl now ms file)
          × Recent id (n + length ms) (evolution_webhook c ctl now ms file).file
    unfolding evolution_webhook
    webhook-Recent now n ms file le h =
        let r = route c ctl ms (arrived file) in
        let (e, (k, kept, room)) =
          route-Settled 0 n ms (arrived file) le (refl, (n, h, omega arith)) in
        (
          (e, filter-fresh c now id k r.ingest_raw r.file on kept),
          filtered-Recent now (n + length ms) r le (k, kept, room),
        )

    abbrev pub OneOrNone : ℕ → Handled → Type 0
    OneOrNone n out =
        (count (is_id id) out.control ≡ 0)
        ⊎ ((count (is_id id) out.control ≡ 1) × Recent id n out.file)

    routed :
        (ms : List IncomingMessage) (file : Option (List String))
        → length ms ≤ 5000
        → Progress (length ms) (route c ctl ms (arrived file))
    routed ms file le =
        mono-Progress (0 + length ms) (length ms) (route c ctl ms (arrived file)) (omega arith)
          (route-Progress 0 ms (arrived file) (omega (arith, le)) (omega arith, inl refl))

    pub webhook_commands :
        (now : ℕ) (ms : List IncomingMessage) (file : Option (List String))
        → length ms ≤ 5000
        → OneOrNone (length ms) (evolution_webhook c ctl now ms file)
    unfolding evolution_webhook
    webhook_commands now ms file le = elim (routed ms file le).1 [
      | inl e ↦ inl e
      | inr s ↦ inr (s.0, filtered-Recent now (length ms) (route c ctl ms (arrived file)) le s.1)
    ]

    pub webhook_kept :
        (now : ℕ) (ms : List IncomingMessage) (file : Option (List String))
        → length ms ≤ 5000
        → any (is_id id) (evolution_webhook c ctl now ms file).kept ≡ true
        → Recent id (length ms) (evolution_webhook c ctl now ms file).file
    unfolding evolution_webhook
    webhook_kept now ms file le h =
        let r = route c ctl ms (arrived file) in
        let few = (routed ms file le).0 in
        Recent_mono id (length r.ingest_raw) (length ms)
          (file_of r.file (filter_for_processing c now r.ingest_raw r.file)) few
          (kept-Recent c now id r.ingest_raw r.file on (omega (arith, le, few)) filled h)
