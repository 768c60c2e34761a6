-- ===== src/WriteGuard/Memory.antt =====
-- What the guard remembers of the turns that ended.
use evi.Common.{
  ℕ, ◌≡◌, refl, String, Bool, true, false, Option, none, some, List, [], ◌∷◌, ltb, str_eq, eq_iff,
  if◌then◌else◌, length, if_both, arith,
}
use evi.WriteGuard.{
  Guard, lookup, is_earlier, remove, assign, save_tool_snapshot, create_pending, clear_pending,
  max_sessions, on_turn_end,
}
use evi.WriteGuard.Turns.{Event, stage, clear, turn_end, snapshot, restart, step, after, last_ended}

pub str_eq→≡ : (s t : String) → str_eq s t ≡ true → s ≡ t
str_eq→≡ s t h = (eq_iff s t).0 h

-- What the guard remembers of the turns that ended is true, or forgotten.
abbrev pub Remembers : List (String × ℕ) → List Event → Type 0
Remembers d es =
    (session : String) (n : ℕ)
    → str_eq session "" ≡ false
    → lookup session d ≡ some n
    → last_ended session es ≡ some n

str_eq_sym : (s t : String) → str_eq s t ≡ false → str_eq t s ≡ false
str_eq_sym s t h = ground (arith, eq_iff s t, eq_iff t s)

lookup-remove_other :
    (k session : String) (d : List (String × ℕ))
    → str_eq k session ≡ false
    → lookup session (remove k d) ≡ lookup session d
unfolding remove
lookup-remove_other k session [] h = refl
lookup-remove_other k session ((s, m) ∷ d) h =
    let rest = lookup-remove_other k session d h in
    ground (arith, rest, eq_iff s k, eq_iff s session, eq_iff k session)

Remembers-assign :
    (k : String) (n : ℕ) (d : List (String × ℕ)) (es : List Event) (ok : Bool)
    → Remembers d es
    → Remembers (assign k n d) (turn_end ok k (some n) ∷ es)
Remembers-assign k n d es ok r session m named h =
    ground (arith, lookup-remove_other k session d, r session m named)

end-Remembers :
    (ok : Bool) (session : String) (turn_seq : Option ℕ) (g : Guard) (es : List Event)
    → Remembers g.last_turn es
    → Remembers (on_turn_end ok session turn_seq g).last_turn (turn_end ok session turn_seq ∷ es)
unfolding on_turn_end clear_pending save_tool_snapshot
end-Remembers ok session none g es r = r
end-Remembers ok session (some n) g es r =
    let P : Guard → Type 0 = λ out. Remembers out.last_turn (turn_end ok session (some n) ∷ es) in
    let kept = if ltb max_sessions (length g.last_turn) then [] else g.last_turn in
    let k : Remembers kept es =
      if_both (λ d. Remembers d es) (ltb max_sessions (length g.last_turn))
        (λ _ s n named h. ground arith) (λ _. r) in
    let after : Guard = record g { last_turn = assign session n kept } in
    let noted = Remembers-assign session n kept es ok k in
    if_both P (str_eq session "")
      (λ e s m named h. ground (arith, r s m named h, str_eq_sym s "" named, str_eq→≡ session "" e))
      (λ _.
        if_both P (is_earlier (lookup session g.staged) n) {x = clear_pending ok session after}
          {y = after} (λ _. noted) (λ _. noted))

pub after-Remembers : (es : List Event) → Remembers (after es).last_turn es
unfolding after step create_pending clear_pending save_tool_snapshot
after-Remembers [] = λ session n named h. ground arith
after-Remembers (stage ok token session ids turn_seq now ∷ es) =
    if_both (λ (out : Guard × Option String). Remembers out.0.last_turn es) ok
      (λ _. after-Remembers es) (λ _. after-Remembers es)
after-Remembers (clear ok session ∷ es) = after-Remembers es
after-Remembers (turn_end ok session turn_seq ∷ es) =
    end-Remembers ok session turn_seq (after es) es (after-Remembers es)
after-Remembers (snapshot ok session ∷ es) = after-Remembers es
after-Remembers (restart ∷ es) = λ session n named h. ground arith
