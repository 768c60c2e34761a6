-- ===== src/TurnLog/Tools.antt =====
-- Every tool call of a turn, and every outcome, is reported.
use evi.Common.{
  ℕ, suc, ◌+◌, max, ◌≡◌, refl, String, Bool, false, not, ◌||◌, Option, none, some, List, [], ◌∷◌,
  str_eq, eq_iff, any, count, arith, Bool-cases, inl, inr,
}
use evi.TurnLog.{ToolUse}
use evi.TurnLog.Collector.{
  Collector, Outcome, Call, take_outcome, entry_of, left_over, merge_tools, tools, has_failed,
}

abbrev names_outcome : String → Outcome → Bool
names_outcome n w = str_eq w.name n

abbrev names_call : String → Call → Bool
names_call n c = str_eq c.name n

abbrev names_tool : String → ToolUse → Bool
names_tool n t = str_eq t.name n

-- What is taken out of the outcomes.
abbrev Taken : String → List Outcome → Option Outcome × List Outcome → Type 0
Taken name ws (none, rest) = (rest ≡ ws) × (count (names_outcome name) ws ≡ 0)
Taken name ws (some w, rest) =
    (count (names_outcome name) ws ≡ suc (count (names_outcome name) rest))
    × ((n : String)
        → str_eq name n ≡ false
        → count (names_outcome n) ws ≡ count (names_outcome n) rest)
    × (any (λ x. not x.ok) ws ≡ (not w.ok || any (λ x. not x.ok) rest))

later-Taken :
    (name : String) (w : Outcome) (ws : List Outcome) (p : Option Outcome × List Outcome)
    → str_eq w.name name ≡ false
    → Taken name ws p
    → Taken name (w ∷ ws) (p.0, w ∷ p.1)
later-Taken name w ws (none, rest) e (same, zero_named) = (rw same, ground (arith, e, zero_named))
later-Taken name w ws (some x, rest) e (named, others, failed) =
    (ground (arith, e, named), (λ n ne. ground (arith, others n ne)), ground (arith, failed))

take_outcome-Taken : (name : String) (ws : List Outcome) → Taken name ws (take_outcome name ws)
take_outcome-Taken name [] = (refl, refl)
take_outcome-Taken name (w ∷ ws) = elim (Bool-cases (str_eq w.name name)) [
  | inl e ↦
      let same : w.name ≡ name = (eq_iff w.name name).0 e in
      rw e (
        ground (arith, e),
        (λ n ne. let other : str_eq w.name n ≡ false = rw same ne in ground (arith, other)),
        refl,
      )
  | inr e ↦ rw e (later-Taken name w ws (take_outcome name ws) e (take_outcome-Taken name ws))
]

left_over-named :
    (n : String) (ws : List Outcome)
    → count (names_tool n) (left_over ws) ≡ count (names_outcome n) ws
left_over-named n [] = refl
left_over-named n (w ∷ ws) = ground (arith, left_over-named n ws)

left_over-failed : (ws : List Outcome) → any has_failed (left_over ws) ≡ any (λ w. not w.ok) ws
left_over-failed [] = refl
left_over-failed (w ∷ ws) = ground (arith, left_over-failed ws)

-- A name among the entries: as often as among the calls, or the outcomes where these are more.
step-named :
    (n : String) (call : Call) (ws : List Outcome) (p : Option Outcome × List Outcome)
    (calls out : ℕ)
    → Taken call.name ws p
    → out ≡ max calls (count (names_outcome n) p.1)
    → count (names_tool n) (entry_of call p.0 ∷ []) + out
      ≡ max (count (names_call n) (call ∷ []) + calls) (count (names_outcome n) ws)
step-named n call ws (none, rest) calls out (same, zero_named) h =
    elim (Bool-cases (str_eq call.name n)) [
      | inl e ↦
          let key : call.name ≡ n = (eq_iff call.name n).0 e in
          let absent : count (names_outcome n) ws ≡ 0 = rw key at zero_named in
          let left : count (names_outcome n) rest ≡ 0 = rw same absent in
          rw e (ground (arith, h, absent, left))
      | inr ne ↦
          let left : out ≡ max calls (count (names_outcome n) ws) = rw same at h in
          rw ne (ground (arith, left))
    ]
step-named n call ws (some w, rest) calls out (named, others, failed) h =
    elim (Bool-cases (str_eq call.name n)) [
      | inl e ↦
          let key : call.name ≡ n = (eq_iff call.name n).0 e in
          let one : count (names_outcome n) ws ≡ suc (count (names_outcome n) rest) =
            rw key at named in
          rw e (ground (arith, h, one))
      | inr ne ↦ rw ne (ground (arith, h, others n ne))
    ]

step-failed :
    (call : Call) (ws : List Outcome) (p : Option Outcome × List Outcome) (errs out : Bool)
    → Taken call.name ws p
    → out ≡ (errs || any (λ w. not w.ok) p.1)
    → (has_failed (entry_of call p.0) || out) ≡ ((call.err || errs) || any (λ w. not w.ok) ws)
step-failed call ws (none, rest) errs out (same, zero_named) h =
    let left : out ≡ (errs || any (λ w. not w.ok) ws) = rw same at h in ground (arith, left)
step-failed call ws (some w, rest) errs out (named, others, failed) h = ground (arith, h, failed)

merge-named :
    (n : String) (calls : List Call) (ws : List Outcome)
    → count (names_tool n) (merge_tools calls ws)
      ≡ max (count (names_call n) calls) (count (names_outcome n) ws)
unfolding merge_tools
merge-named n [] ws = ground (arith, left_over-named n ws)
merge-named n (call ∷ calls) ws =
    let p = take_outcome call.name ws in
    let rest = merge_tools calls p.1 in
    let step =
      step-named n call ws p (count (names_call n) calls) (count (names_tool n) rest)
        (take_outcome-Taken call.name ws) (merge-named n calls p.1) in
    ground (arith, step)

merge-failed :
    (calls : List Call) (ws : List Outcome)
    → any has_failed (merge_tools calls ws) ≡ (any (λ c. c.err) calls || any (λ w. not w.ok) ws)
unfolding merge_tools
merge-failed [] ws = left_over-failed ws
merge-failed (call ∷ calls) ws =
    let p = take_outcome call.name ws in
    step-failed call ws p (any (λ c. c.err) calls) (any has_failed (merge_tools calls p.1))
      (take_outcome-Taken call.name ws) (merge-failed calls p.1)

-- Every name stands in the tools of a turn as often as it was called, or as often as an outcome was
-- recorded for it where that is more; and one of the tools has failed exactly where a call raised or an
-- outcome that is not ok was recorded.
pub tools_reported :
    (c : Collector) (n : String)
    → (count (λ t. str_eq t.name n) (tools c)
        ≡ max (count (λ x. str_eq x.name n) c.calls) (count (λ w. str_eq w.name n) c.windmill))
      × (any has_failed (tools c) ≡ (any (λ x. x.err) c.calls || any (λ w. not w.ok) c.windmill))
unfolding tools
tools_reported c n = (merge-named n c.calls c.windmill, merge-failed c.calls c.windmill)
