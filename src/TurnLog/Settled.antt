-- ===== src/TurnLog/Settled.antt =====
-- The job that stores the signals has nothing to store when it runs again.
use evi.Common.{
  ℕ, ◌≡◌, ◌≢◌, refl, sym, ap, subst, ◌∙◌, true, false, Option, none, some, List, [], ◌∷◌, leb, ◌==◌,
  if◌then◌else◌, update, map, arith, Bool-cases, inl, inr, All, All-select, All-sort, All-both,
  if_both,
}
use evi.Common.Keyed.{get, get-key, on_found, Unique, get-update, Unique-update, All-found}
use evi.Common.Chosen.{Unique-select, Unique-sort}
use evi.TurnLog.{Signals, Turn, Turns, before, list_turns, update_turn_signals}
use evi.TurnLog.Usage.{
  Wording, compute_signals, links, same_signals, Report, report_of, store_signals, scan,
  is_user_turn, rows_until, run_usage_signals,
}
use evi.TurnLog.Stripped.{
  id_of, strip, strip_all, job, strip-rows_until, jobs-strip, links-All, links-Unique,
}

same_signals_iff : (a b : Signals) → same_signals a b ≡ true → a ≡ b
same_signals_iff a b h = ground (arith, h)

same_signals_refl : (a : Signals) → same_signals a a ≡ true
same_signals_refl a = ground arith

-- The row of an id.
abbrev row : ℕ → Turns → Option Turn
row i s = get id_of i s.rows

module _ (r : Turn) (sig : Signals) (p : Report) (s : Turns) where
  abbrev stored : Turns
  stored = (store_signals r sig (p, s)).1

  store-other : (i : ℕ) → r.id ≢ i → row i stored ≡ row i s
  unfolding store_signals update_turn_signals
  store-other i ne =
      if_both (λ (out : Turns). row i out ≡ row i s) (same_signals sig r.signals) (λ _. refl)
        (λ _.
          get-update id_of (λ x. x.id == r.id) (λ x. record x { signals = sig }) i s.rows
            (λ x. refl)
          ∙ kept (row i s) refl)
    where
      kept :
          (o : Option Turn)
          → row i s ≡ o
          → on_found id_of (λ x. x.id == r.id) (λ x. record x { signals = sig }) o ≡ o
      kept none e = refl
      kept (some x) e = let key : x.id ≡ i = get-key id_of i s.rows x e in ground (arith, key, ne)

  store-own : row r.id s ≡ some r → row r.id stored ≡ some (record r { signals = sig })
  unfolding store_signals update_turn_signals
  store-own h = elim (Bool-cases (same_signals sig r.signals)) [
    | inl e ↦
        let same : sig ≡ r.signals = same_signals_iff sig r.signals e in
        let found : row r.id s ≡ some (record r { signals = sig }) = rw same h in rw e found
    | inr e ↦
        let own : (if r.id == r.id then record r { signals = sig } else r)
            ≡ record r { signals = sig } =
          ground arith in
        let hit =
          get-update id_of (λ x. x.id == r.id) (λ x. record x { signals = sig }) r.id s.rows in
        rw e (hit (λ x. refl) ∙ rw h (ap some own))
  ]

  strip-store : strip_all stored.rows ≡ strip_all s.rows
  unfolding store_signals update_turn_signals
  strip-store =
      if_both (λ (out : Turns). strip_all out.rows ≡ strip_all s.rows) (same_signals sig r.signals)
        (λ _. refl) (λ _. same s.rows)
    where
      same :
          (xs : List Turn)
          → strip_all (update (λ x. x.id == r.id) (λ x. record x { signals = sig }) xs)
            ≡ strip_all xs
      same [] = refl
      same (x ∷ xs) = elim (Bool-cases (x.id == r.id)) [
        | inl e ↦ rw e (ap (λ ys. strip x ∷ ys) (same xs))
        | inr e ↦ rw e (ap (λ ys. strip x ∷ ys) (same xs))
      ]

  store-Unique : Unique id_of s.rows → Unique id_of stored.rows
  unfolding store_signals update_turn_signals
  store-Unique u =
      if_both (λ (out : Turns). Unique id_of out.rows) (same_signals sig r.signals) (λ _. u)
        (λ _.
          Unique-update id_of (λ x. x.id == r.id) (λ x. record x { signals = sig }) s.rows
            (λ x. refl) u)

module _ (w : Wording) (until : ℕ) where
  abbrev pair_id : Turn × Option Turn → ℕ
  pair_id p = p.0.id

  module _ (r : Turn) (next : Option Turn) (ps : List (Turn × Option Turn))
      (out : Report × Turns) where
    scan-late : leb until r.ts ≡ true → scan w until ((r, next) ∷ ps) out ≡ scan w until ps out
    unfolding scan
    scan-late e = ap (scan w until ps) (rw e refl)

    scan-due :
        leb until r.ts ≡ false
        → scan w until ((r, next) ∷ ps) out
          ≡ scan w until ps (store_signals r (compute_signals w r next) out)
    unfolding scan
    scan-due e = ap (scan w until ps) (rw e refl)

  -- What a step of the loop has, the loop has.
  scan_all :
      (P : Turns → Type 0) (ps : List (Turn × Option Turn)) (p : Report) (s : Turns)
      → ((r : Turn) (sig : Signals) (q : Report) (t : Turns)
          → P t
          → P (store_signals r sig (q, t)).1)
      → P s
      → P (scan w until ps (p, s)).1
  unfolding scan
  scan_all P [] p s keep h = h
  scan_all P ((r, next) ∷ ps) p s keep h = elim (Bool-cases (leb until r.ts)) [
    | inl e ↦ rw (scan-late r next ps (p, s) e) (scan_all P ps p s keep h)
    | inr e ↦
        let sig = compute_signals w r next in
        rw (scan-due r next ps (p, s) e)
          (scan_all P ps _ (store_signals r sig (p, s)).1 keep (keep r sig p s h))
  ]

  scan-other :
      (i : ℕ) (ps : List (Turn × Option Turn)) (p : Report) (s : Turns)
      → All (λ x. pair_id x ≢ i) ps
      → row i (scan w until ps (p, s)).1 ≡ row i s
  unfolding scan
  scan-other i [] p s a = refl
  scan-other i ((r, next) ∷ ps) p s a = elim (Bool-cases (leb until r.ts)) [
    | inl e ↦ rw (scan-late r next ps (p, s) e) (scan-other i ps p s a.1)
    | inr e ↦
        let sig = compute_signals w r next in
        let out = store_signals r sig (p, s) in
        rw (scan-due r next ps (p, s) e)
          (scan-other i ps out.0 out.1 a.1 ∙ store-other r sig p s i a.0)
  ]

  -- The row of a pair is in the table, and the row with its signals is.
  abbrev Found : Turns → Turn × Option Turn → Type 0
  Found s x = row (pair_id x) s ≡ some x.0

  abbrev Stored : Turns → Turn × Option Turn → Type 0
  Stored s (r, next) =
      leb until r.ts ≡ false → row r.id s ≡ some (record r { signals = compute_signals w r next })

  scan-Stored :
      (ps : List (Turn × Option Turn)) (p : Report) (s : Turns)
      → Unique pair_id ps
      → All (Found s) ps
      → All (Stored (scan w until ps (p, s)).1) ps
  scan-Stored [] p s u a = tt
  scan-Stored ((r, next) ∷ ps) p s u a =
      let After = λ (out : Report × Turns). All (Stored out.1) ((r, next) ∷ ps) in
      elim (Bool-cases (leb until r.ts)) [
        | inl e ↦
            subst After (sym (scan-late r next ps (p, s) e))
              ((λ q. absurd (ground (arith, e, q))), scan-Stored ps p s u.1 a.1)
        | inr e ↦
            let sig = compute_signals w r next in
            let out = store_signals r sig (p, s) in
            let others : All (Found out.1) ps =
              All-both (λ x ne found. store-other r sig p s (pair_id x) (λ q. ne (sym q)) ∙ found)
                ps u.0 a.1 in
            subst After (sym (scan-due r next ps (p, s) e)) (
              (λ q. scan-other r.id ps out.0 out.1 u.0 ∙ store-own r sig p s a.0),
              scan-Stored ps out.0 out.1 u.1 others,
            )
      ]

  abbrev Quiet : Turn × Option Turn → Type 0
  Quiet (r, next) = leb until r.ts ≡ false → r.signals ≡ compute_signals w r next

  scan-Quiet :
      (ps : List (Turn × Option Turn)) (p : Report) (s : Turns)
      → All Quiet ps
      → ((scan w until ps (p, s)).1 ≡ s) × ((scan w until ps (p, s)).0.updated ≡ p.updated)
  unfolding scan store_signals
  scan-Quiet [] p s a = (refl, refl)
  scan-Quiet ((r, next) ∷ ps) p s a = elim (Bool-cases (leb until r.ts)) [
    | inl e ↦ rw (scan-late r next ps (p, s) e) (scan-Quiet ps p s a.1)
    | inr e ↦
        let same : same_signals (compute_signals w r next) r.signals ≡ true =
          rw (a.0 e) (same_signals_refl (compute_signals w r next)) in
        rw (scan-due r next ps (p, s) e, same)
          (scan-Quiet ps (report_of (compute_signals w r next) false p) s a.1)
  ]

  -- Rows that give the same jobs as stored ones are quiet in the same table.
  jobs-Quiet :
      (ps qs : List (Turn × Option Turn)) (s : Turns)
      → map (job w) ps ≡ map (job w) qs
      → All (Stored s) ps
      → All (Found s) qs
      → All Quiet qs
  jobs-Quiet ps [] s e a b = tt
  jobs-Quiet [] (q ∷ qs) s e a b = absurd (ground (arith, e))
  jobs-Quiet ((r, next) ∷ ps) ((r', next') ∷ qs) s e a b =
      let here : job w (r, next) ≡ job w (r', next') = cc e in
      let rest : map (job w) ps ≡ map (job w) qs = cc e in
      (
        (λ q.
            let due : leb until r.ts ≡ false = ap (λ j. leb until j.1) here ∙ q in
            let same_id : r.id ≡ r'.id = ap (λ j. j.0) here in
            let found : some (record r { signals = compute_signals w r next }) ≡ some r' =
              sym (a.0 due) ∙ (ap (λ i. row i s) same_id ∙ b.0) in
            let is_row : record r { signals = compute_signals w r next } ≡ r' = cc found in
            sym (ap (λ x. x.signals) is_row) ∙ ap (λ j. j.2) here),
        jobs-Quiet ps qs s rest a.1 b.1,
      )

  rows-Found :
      (since : ℕ) (s : Turns)
      → Unique id_of s.rows
      → All (Found s) (links w (rows_until since until s)).0
  unfolding rows_until list_turns
  rows-Found since s u =
      let Own = λ (r : Turn). row r.id s ≡ some r in
      links-All w Own (rows_until since until s) (
        All-select Own is_user_turn _
          (All-sort Own before _ (All-select Own _ s.rows (All-found id_of s.rows u))))

  rows-Unique :
      (since : ℕ) (s : Turns)
      → Unique id_of s.rows
      → Unique pair_id (links w (rows_until since until s)).0
  unfolding rows_until list_turns
  rows-Unique since s u = links-Unique w (rows_until since until s) (
      Unique-select id_of is_user_turn _
        (Unique-sort id_of before _ (Unique-select id_of _ s.rows u)))

-- On a table with unique ids, the job that stores the signals of the turns of a window, run again for the
-- same window right after, changes nothing and counts no turn as updated.
pub run_usage_signals_again :
    (w : Wording) (since until : ℕ) (s : Turns)
    → Unique id_of s.rows
    → ((run_usage_signals w since until (run_usage_signals w since until s).1).1
        ≡ (run_usage_signals w since until s).1)
      × ((run_usage_signals w since until (run_usage_signals w since until s).1).0.updated ≡ 0)
unfolding run_usage_signals
run_usage_signals_again w since until s u =
    let start : Report = record {
      turns = 0;
      updated = 0;
      tool_failed = 0;
      correction = 0;
      rephrase = 0;
      cant_do = 0;
    } in
    let ps = (links w (rows_until since until s)).0 in
    let s' = (scan w until ps (start, s)).1 in
    let bare : strip_all s'.rows ≡ strip_all s.rows =
      scan_all w until (λ t. strip_all t.rows ≡ strip_all s.rows) ps start s
        (λ r sig q t e. strip-store r sig q t ∙ e) refl in
    let u' = scan_all w until (λ t. Unique id_of t.rows) ps start s store-Unique u in
    let jobs =
      jobs-strip w (rows_until since until s) (rows_until since until s')
        (strip-rows_until since until s s' (sym bare)) in
    scan-Quiet w until (links w (rows_until since until s')).0 start s' (
      jobs-Quiet w until ps (links w (rows_until since until s')).0 s' jobs
        (scan-Stored w until ps start s (rows-Unique w until since s u)
          (rows-Found w until since s u))
        (rows-Found w until since s' u'))
