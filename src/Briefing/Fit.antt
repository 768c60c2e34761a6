-- ===== src/Briefing/Fit.antt =====
-- What the volume rule of the briefing keeps and reaches.
use evi.Common.{
  ℕ, ◌≤◌, ◌≡◌, refl, ◌∙◌, ◌⊎◌, inl, inr, String, true, false, ◌&&◌, List, [], ◌∷◌, leb, leb→le, any,
  map, All, arith, if_both,
}
use evi.Briefing.Items.{
  Key, Section, calendar, tasks, email, whatsapp, awaiting, names, key_eq, count_all,
}
use evi.Briefing.Volume.{
  Texts, is_foldable, volume_lines, collapse, collapse_order, fit_from, fit_volume,
}

module _ (t : Texts) where
  abbrev Within : List Key → Section → Type 0
  Within keys s = is_foldable t s ≡ true → any (key_eq s.key) keys ≡ true

  collapse-Within :
      (key : Key) (keys : List Key) (s : Section)
      → Within (key ∷ keys) s
      → Within keys (collapse t key s)
  unfolding collapse
  collapse-Within key keys s h =
      if_both (Within keys) (key_eq s.key key && is_foldable t s)
        (λ _ o. absurd (ground (arith, o))) (λ kept o. ground (arith, kept, o, h o))

  collapse-All :
      (key : Key) (keys : List Key) (ss : List Section)
      → All (Within (key ∷ keys)) ss
      → All (Within keys) (map (collapse t key) ss)
  collapse-All key keys [] h = tt
  collapse-All key keys (s ∷ ss) h = (collapse-Within key keys s h.0, collapse-All key keys ss h.1)

  -- The end of the rule: the lines fit, or nothing is left to fold.
  abbrev pub Fits : ℕ → List Section → Type 0
  Fits budget out = (volume_lines t out ≤ budget) ⊎ All (λ s. is_foldable t s ≡ false) out

  no_more : (ss : List Section) → All (Within []) ss → All (λ s. is_foldable t s ≡ false) ss
  no_more [] h = tt
  no_more (s ∷ ss) h = (ground (arith, h.0), no_more ss h.1)

  fit_from-Fits :
      (keys : List Key) (budget : ℕ) (out : List Section)
      → All (Within keys) out
      → Fits budget (fit_from t keys budget out)
  unfolding fit_from
  fit_from-Fits [] budget out h = inr (no_more out h)
  fit_from-Fits (key ∷ keys) budget out h =
      if_both (Fits budget) (leb (volume_lines t out) budget)
        (λ e. inl (leb→le (volume_lines t out) budget e))
        (λ _. fit_from-Fits keys budget (map (collapse t key) out) (collapse-All key keys out h))

  ordered : (key : Key) → any (key_eq key) (collapse_order t) ≡ true
  ordered calendar = refl
  ordered tasks = refl
  ordered email = refl
  ordered whatsapp = refl
  ordered awaiting = refl
  ordered names = refl

  every_ordered : (ss : List Section) → All (Within (collapse_order t)) ss
  every_ordered [] = tt
  every_ordered (s ∷ ss) = ((λ _. ordered s.key), every_ordered ss)

  -- What the reader is told of a section, whether it is folded or not.
  abbrev pub told : Section → Key × ℕ × String
  told s = (s.key, count_all s, s.error)

  collapse-told : (key : Key) (s : Section) → told (collapse t key s) ≡ told s
  unfolding collapse count_all
  collapse-told key s =
      if_both (λ (out : Section). told out ≡ told s) (key_eq s.key key && is_foldable t s)
        (λ e. ground arith) (λ _. refl)

  map-told : (key : Key) (ss : List Section) → map told (map (collapse t key) ss) ≡ map told ss
  map-told key [] = refl
  map-told key (s ∷ ss) = cc (collapse-told key s, map-told key ss)

  fit_from-told :
      (keys : List Key) (budget : ℕ) (out : List Section)
      → map told (fit_from t keys budget out) ≡ map told out
  unfolding fit_from
  fit_from-told [] budget out = refl
  fit_from-told (key ∷ keys) budget out =
      if_both (λ (end : List Section). map told end ≡ map told out)
        (leb (volume_lines t out) budget) (λ _. refl)
        (λ _. fit_from-told keys budget (map (collapse t key) out) ∙ map-told key out)

-- Whatever the sections, the volume rule keeps them in their order, each with its number of items
-- and its error; and either the lines of the text fit the budget, or every section that has items
-- and no error is folded.
pub fit_volume-Fits :
    (t : Texts) (budget : ℕ) (ss : List Section)
    → (map (told t) (fit_volume t budget ss) ≡ map (told t) ss)
      × Fits t budget (fit_volume t budget ss)
unfolding fit_volume
fit_volume-Fits t budget ss = (
  fit_from-told t (collapse_order t) budget ss,
  fit_from-Fits t (collapse_order t) budget ss (every_ordered t ss),
)
