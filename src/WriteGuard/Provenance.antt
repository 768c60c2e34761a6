-- ===== src/WriteGuard/Provenance.antt =====
-- Where the pending deletions of the table come from.
use evi.Common.{
  ◌+◌, ◌≡◌, refl, inl, inr, String, subst, Bool, true, false, none, some, List, [], ◌∷◌, ltb,
  str_eq, if◌then◌else◌, take, select, length, All, All-take, All-select, select-meets, if_both,
  arith,
}
use evi.WriteGuard.{
  Pending, Payload, Snapshot, Guard, lookup, is_earlier, assign, save_tool_snapshot,
  load_tool_snapshots, first_pending, load_latest, ttl, create_pending, clear_pending, max_sessions,
  on_turn_end,
}
use evi.WriteGuard.Turns.{Event, stage, clear, turn_end, snapshot, restart, step, after, WasStaged}
use evi.WriteGuard.Memory.{str_eq→≡}

-- Every pending deletion of the table was staged by its session.
abbrev Backed : List Event → Snapshot → Type 0
Backed es r = elim r.payload [ Payload.pending p ↦ WasStaged r.session_id p es | _ ↦ Unit ]

first-WasStaged :
    (session : String) (p : Pending) (es : List Event) (rs : List Snapshot) (s : String)
    (payload : Payload)
    → Backed es (record { session_id = s; payload = payload })
    → s ≡ session
    → first_pending (record { session_id = s; payload = payload } ∷ rs) ≡ some (Payload.pending p)
    → (first_pending rs ≡ some (Payload.pending p) → WasStaged session p es)
    → WasStaged session p es
first-WasStaged session p es rs s (Payload.pending q) b o h rest =
    let same : q ≡ p = cc in subst (λ t. WasStaged t p es) o (subst (λ t. WasStaged s t es) same b)
first-WasStaged session p es rs s Payload.cleared b o h rest = ground arith
first-WasStaged session p es rs s Payload.other b o h rest = rest h

first_pending-WasStaged :
    (session : String) (p : Pending) (es : List Event) (rs : List Snapshot)
    → All (Backed es) rs
    → All (λ r. str_eq r.session_id session ≡ true) rs
    → first_pending rs ≡ some (Payload.pending p)
    → WasStaged session p es
first_pending-WasStaged session p es [] b o h = ground arith
first_pending-WasStaged session p es (r ∷ rs) b o h =
    first-WasStaged session p es rs r.session_id r.payload b.0 (str_eq→≡ r.session_id session o.0) h
      (first_pending-WasStaged session p es rs b.1 o.1)

module _ (e : Event) (es : List Event)
    (keep : (session : String) (p : Pending)
      → WasStaged session p es
      → WasStaged session p (e ∷ es)) where
  weaken_one :
      (s : String) (payload : Payload)
      → Backed es (record { session_id = s; payload = payload })
      → Backed (e ∷ es) (record { session_id = s; payload = payload })
  weaken_one s (Payload.pending p) b = keep s p b
  weaken_one s Payload.cleared b = tt
  weaken_one s Payload.other b = tt

  weaken-Backed : (rs : List Snapshot) → All (Backed es) rs → All (Backed (e ∷ es)) rs
  weaken-Backed [] h = tt
  weaken-Backed (r ∷ rs) h = (weaken_one r.session_id r.payload h.0, weaken-Backed rs h.1)

  saved-Backed :
      (ok : Bool) (s : String) (payload : Payload) (g : Guard)
      → Backed (e ∷ es) (record { session_id = s; payload = payload })
      → All (Backed es) g.snapshots
      → All (Backed (e ∷ es)) (save_tool_snapshot ok s payload g).snapshots
  unfolding save_tool_snapshot
  saved-Backed ok s payload g b h =
      if_both (All (Backed (e ∷ es))) ok (λ _. (b, weaken-Backed g.snapshots h))
        (λ _. weaken-Backed g.snapshots h)

-- The table is backed by what happened.
after-Backed : (es : List Event) → All (Backed es) (after es).snapshots
unfolding after step create_pending clear_pending on_turn_end
after-Backed [] = tt
after-Backed (stage true token session ids turn_seq now ∷ es) =
    let e = stage true token session ids turn_seq now in
    saved-Backed e es (λ s p w. inr w) true session
      (Payload.pending
        (record { token = token; ids = ids; created_turn = turn_seq; expires_at = now + ttl }))
      (after es) (inl (refl, refl)) (after-Backed es)
after-Backed (stage false token session ids turn_seq now ∷ es) =
    weaken-Backed (stage false token session ids turn_seq now) es (λ s p w. w) (after es).snapshots
      (after-Backed es)
after-Backed (clear ok session ∷ es) =
    saved-Backed (clear ok session) es (λ s p w. w) ok session Payload.cleared (after es) tt
      (after-Backed es)
after-Backed (turn_end ok session none ∷ es) =
    weaken-Backed (turn_end ok session none) es (λ s p w. w) (after es).snapshots (after-Backed es)
after-Backed (turn_end ok session (some n) ∷ es) =
    let e = turn_end ok session (some n) in
    let P : Guard → Type 0 = λ out. All (Backed (e ∷ es)) out.snapshots in
    let same = weaken-Backed e es (λ s p w. w) (after es).snapshots (after-Backed es) in
    let kept =
      if ltb max_sessions (length (after es).last_turn) then [] else (after es).last_turn in
    let noted : Guard = record (after es) { last_turn = assign session n kept } in
    if_both P (str_eq session "") (λ _. same)
      (λ _.
        if_both P (is_earlier (lookup session (after es).staged) n)
          {x = clear_pending ok session noted} {y = noted}
          (λ _.
            saved-Backed e es (λ s p w. w) ok session Payload.cleared (after es) tt
              (after-Backed es))
          (λ _. same))
after-Backed (snapshot ok session ∷ es) =
    saved-Backed (snapshot ok session) es (λ s p w. w) ok session Payload.other (after es) tt
      (after-Backed es)
after-Backed (restart ∷ es) =
    weaken-Backed restart es (λ s p w. w) (after es).snapshots (after-Backed es)

pub load_latest-WasStaged :
    (session : String) (p : Pending) (es : List Event)
    → load_latest session (after es) ≡ some (Payload.pending p)
    → WasStaged session p es
unfolding load_latest load_tool_snapshots
load_latest-WasStaged session p es h =
    let rows = select (λ r. str_eq r.session_id session) (after es).snapshots in
    first_pending-WasStaged session p es (take 50 rows)
      (All-take (Backed es) 50 rows
        (All-select (Backed es) _ (after es).snapshots (after-Backed es)))
      (All-take _ 50 rows (select-meets _ (after es).snapshots)) h
