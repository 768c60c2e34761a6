-- ===== src/Probe/Outages.antt =====
-- Since when a source is down.
use text.Mathlib.TextPositions.{eq_refl}
use evi.Common.{
  ℕ, ◌≡◌, refl, ◌∙◌, String, Bool, true, false, ◌&&◌, Option, some, List, [], ◌∷◌, ◌++◌, str_eq,
  eq_iff, if◌then◌else◌, if_both, any, find?, find-update, find-append, arith, Bool-cases, inl, inr,
}
use evi.Probe.{Source, is_source, first_status, next_status, record_source}

-- One check of a source, with its outcome, its reason and its time.
pub record Seen : Type 0 where
  pub source : String
  pub ok : Bool
  pub reason : Option String
  pub at : ℕ

unfoldable pub record_all : List Seen → List Source → List Source
record_all [] rows = rows
record_all (e ∷ es) rows = record_all es (record_source e.source e.ok e.reason e.at rows)

-- No check of the source succeeds.
abbrev pub AllFail : String → List Seen → Type 0
AllFail source [] = Unit
AllFail source (e ∷ es) = ((str_eq e.source source && e.ok) ≡ false) × AllFail source es

-- The source is down since an instant.
abbrev pub DownSince : String → ℕ → List Source → Type 0
DownSince source at rows =
    (r : Source) × (find? (is_source source) rows ≡ some r)
    × (r.ok ≡ false)
    × (r.down_since ≡ some at)

abbrev Up : String → List Source → Type 0
Up source rows = (r : Source) × (find? (is_source source) rows ≡ some r) × (r.ok ≡ true)

module _ (source : String) where
  found-own :
      (rows : List Source) (r : Source)
      → find? (is_source source) rows ≡ some r
      → (any (is_source source) rows ≡ true) × (is_source source r ≡ true)
  found-own [] r h = absurd (ground arith)
  found-own (x ∷ rows) r h = elim (Bool-cases (is_source source x)) [
    | inl e ↦
        let same : ◌≡◌ {A = Option Source} (some x) (some r) = rw e at h in
        (rw e refl, ground (arith, same, e))
    | inr e ↦ let (a, b) = found-own rows r (rw e at h) in (rw e a, b)
  ]

  any-found :
      (rows : List Source)
      → any (is_source source) rows ≡ true
      → (r : Source) × (find? (is_source source) rows ≡ some r)
  any-found [] e = absurd (ground (arith, e))
  any-found (x ∷ rows) e = elim (Bool-cases (is_source source x)) [
    | inl u ↦ (x, rw u refl)
    | inr u ↦ let (r, h) = any-found rows (rw u at e) in (r, rw u h)
  ]

  missing-append :
      (rows : List Source) (r : Source)
      → any (is_source source) rows ≡ false
      → is_source source r ≡ true
      → find? (is_source source) (rows ++ r ∷ []) ≡ some r
  missing-append [] r e own = rw own refl
  missing-append (x ∷ rows) r e own =
      ground (arith, e, missing-append rows r (ground (arith, e)) own)

  found-miss :
      (q : Source → Bool) (rows : List Source) (r : Source)
      → find? (is_source source) rows ≡ some r
      → any q rows ≡ false
      → q r ≡ false
  found-miss q [] r h e = absurd (ground arith)
  found-miss q (x ∷ rows) r h e = elim (Bool-cases (is_source source x)) [
    | inl u ↦
        let same : ◌≡◌ {A = Option Source} (some x) (some r) = rw u at h in
        let x_is : x ≡ r = cc same in rw⁻¹ x_is (ground (arith, e))
    | inr u ↦ found-miss q rows r (rw u at h) (ground (arith, e))
  ]

  -- A check of a source that has a row changes that row, and one of another source does not.
  find-record :
      (e : Seen) (rows : List Source) (r : Source)
      → find? (is_source source) rows ≡ some r
      → find? (is_source source) (record_source e.source e.ok e.reason e.at rows)
        ≡ some (if is_source e.source r then next_status e.ok e.reason e.at r else r)
  unfolding record_source
  find-record e rows r h =
      if_both
        (λ (out : List Source).
          find? (is_source source) out
          ≡ some (if is_source e.source r then next_status e.ok e.reason e.at r else r))
        (any (is_source e.source) rows)
        (λ _.
          find-update (is_source source) (is_source e.source) (next_status e.ok e.reason e.at) rows
            r (λ x. refl) h)
        (λ none_there.
          rw (found-miss (is_source e.source) rows r h none_there)
            (find-append (is_source source) rows _ r h))

  fail-DownSince :
      (e : Seen) (at : ℕ) (rows : List Source)
      → (str_eq e.source source && e.ok) ≡ false
      → DownSince source at rows
      → DownSince source at (record_source e.source e.ok e.reason e.at rows)
  fail-DownSince e at rows bad (r, h, down, since) =
      let own : is_source source r ≡ true = (found-own rows r h).1 in
      elim (Bool-cases (is_source e.source r)) [
        | inl u ↦
            let failed : e.ok ≡ false = ground (
              arith,
              bad,
              own,
              u,
              eq_iff e.source source,
              eq_iff r.source source,
              eq_iff r.source e.source,
            ) in
            (
              next_status e.ok e.reason e.at r,
              find-record e rows r h ∙ rw u refl,
              failed,
              rw (failed, down, since) refl,
            )
        | inr u ↦ (r, find-record e rows r h ∙ rw u refl, down, since)
      ]

  all-DownSince :
      (es : List Seen) (at : ℕ) (rows : List Source)
      → AllFail source es
      → DownSince source at rows
      → DownSince source at (record_all es rows)
  unfolding record_all
  all-DownSince [] at rows f d = d
  all-DownSince (e ∷ es) at rows f d =
      all-DownSince es at (record_source e.source e.ok e.reason e.at rows) f.1
        (fail-DownSince e at rows f.0 d)

  ok-Up :
      (reason : Option String) (at : ℕ) (rows : List Source)
      → Up source (record_source source true reason at rows)
  unfolding record_source
  ok-Up reason at rows =
      if_both (Up source) (any (is_source source) rows)
        (λ e.
          let (r, h) = any-found rows e in
          (
            next_status true reason at r,
            find-update (is_source source) (is_source source) (next_status true reason at) rows r
                  (λ x. refl) h
                ∙ rw (found-own rows r h).1 refl,
            refl,
          ))
        (λ e. (
          first_status source true reason at,
          missing-append rows (first_status source true reason at) e (eq_refl source),
          refl,
        ))

  first-DownSince :
      (reason : Option String) (at : ℕ) (rows : List Source)
      → Up source rows
      → DownSince source at (record_source source false reason at rows)
  first-DownSince reason at rows (r, h, up) =
      let own : is_source source r ≡ true = (found-own rows r h).1 in
      (
        next_status false reason at r,
        find-record (record { source = source; ok = false; reason = reason; at = at }) rows r h
            ∙ rw own refl,
        refl,
        rw up refl,
      )

-- After a check of a source that succeeded, the first one that fails sets the time of the outage, and
-- it stays while no later check of the source succeeds, whatever the checks of other sources do.
pub outage_since :
    (source : String) (reason reason' : Option String) (t at : ℕ) (es : List Seen)
    (rows : List Source)
    → AllFail source es
    → DownSince source at (
        record_all es
          (record_source source false reason' at (record_source source true reason t rows)))
outage_since source reason reason' t at es rows f = all-DownSince source es at _ f (
    first-DownSince source reason' at (record_source source true reason t rows)
      (ok-Up source reason t rows))
