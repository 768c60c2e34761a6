-- ===== src/Conversation/Merging.antt =====
-- What a merge of two conversations keeps.
use evi.Common.{
  ℕ, ◌≡◌, refl, ◌∙◌, ap, ◌⊎◌, inl, inr, String, true, false, not, Option, none, some, List, [], ◌∷◌,
  str_eq, eq_iff, select, update, any, find?, arith, Bool-cases, Option-cases,
}
use evi.Conversation.{Conversation, is_of, greatest, upsert, get_state, is_debt}
use evi.Conversation.Merge.{merged, moved, merge_conversation_state}

module _ (jid : String) where
  find-update :
      (f : Conversation → Conversation) (rs : List Conversation) (r : Conversation)
      → ((t : Conversation) → (f t).jid ≡ t.jid)
      → find? (is_of jid) rs ≡ some r
      → find? (is_of jid) (update (is_of jid) f rs) ≡ some (f r)
  find-update f [] r keep h = absurd (ground arith)
  find-update f (t ∷ rs) r keep h = elim (Bool-cases (is_of jid t)) [
    | inl e ↦
        let same : ◌≡◌ {A = Option Conversation} (some t) (some r) = rw e at h in
        let hit : is_of jid (f t) ≡ true = ap (λ j. str_eq j jid) (keep t) ∙ e in
        rw e (rw hit (cc same))
    | inr e ↦ rw e (rw e (find-update f rs r keep (rw e at h)))
  ]

  find-any :
      (rs : List Conversation) (r : Conversation)
      → find? (is_of jid) rs ≡ some r
      → any (is_of jid) rs ≡ true
  find-any [] r h = absurd (ground arith)
  find-any (t ∷ rs) r h = elim (Bool-cases (is_of jid t)) [
    | inl e ↦ rw e refl
    | inr e ↦ rw e (find-any rs r (rw e at h))
  ]

  pub find-drop_self :
      (rs : List Conversation) → find? (is_of jid) (select (λ r. not (is_of jid r)) rs) ≡ none
  find-drop_self [] = refl
  find-drop_self (t ∷ rs) = ground (arith, find-drop_self rs)

  find-drop_other :
      (other : String) (rs : List Conversation)
      → str_eq other jid ≡ false
      → find? (is_of jid) (select (λ r. not (is_of other r)) rs) ≡ find? (is_of jid) rs
  find-drop_other other [] ne = refl
  find-drop_other other (t ∷ rs) ne = ground (
    arith,
    ne,
    eq_iff t.jid jid,
    eq_iff t.jid other,
    eq_iff other jid,
    find-drop_other other rs ne,
  )

-- A merged row is owed an answer only if one of the two rows was.
merged-debt :
    (now min_age max_age db_now : ℕ) (r d : Conversation)
    → (is_debt now min_age max_age (merged r db_now d) ≡ false)
      ⊎ (is_debt now min_age max_age d ≡ true)
      ⊎ (is_debt now min_age max_age r ≡ true)
merged-debt now min_age max_age db_now r d = ground arith

-- Folding one conversation into another leaves one row, without the other: each of its times is the
-- later one of the two, its text and id are those of the message that was heard last, and it is owed
-- an answer only if one of the two rows was.
pub merge_state :
    (src dst : String) (db_now now min_age max_age : ℕ) (rows : List Conversation)
    (r d : Conversation)
    → str_eq src dst ≡ false
    → get_state src rows ≡ some r
    → get_state dst rows ≡ some d
    → let (s', done) = merge_conversation_state src dst db_now rows in
      let m = merged r db_now d in
      (done ≡ true)
      × (get_state src s' ≡ none)
      × (get_state dst s' ≡ some m)
      × (m.last_in_at ≡ greatest d.last_in_at r.last_in_at)
      × (m.last_out_at ≡ greatest d.last_out_at r.last_out_at)
      × (m.acknowledged_at ≡ greatest d.acknowledged_at r.acknowledged_at)
      × ((m.last_in_at ≡ d.last_in_at)
            × (m.last_in_id ≡ d.last_in_id)
            × (m.last_in_preview ≡ d.last_in_preview)
          ⊎ (m.last_in_at ≡ r.last_in_at)
            × (m.last_in_id ≡ r.last_in_id)
            × (m.last_in_preview ≡ r.last_in_preview))
      × ((is_debt now min_age max_age m ≡ false)
          ⊎ (is_debt now min_age max_age d ≡ true)
          ⊎ (is_debt now min_age max_age r ≡ true))
unfolding merge_conversation_state get_state
merge_state src dst db_now now min_age max_age rows r d ne hs hd =
    rw (ne, hs, find-any dst rows d hd)
      (
        refl,
        find-drop_self src (update (is_of dst) (merged r db_now) rows),
        find-drop_other dst src (update (is_of dst) (merged r db_now) rows) ne
            ∙ find-update dst (merged r db_now) rows d (λ t. refl) hd,
        refl,
        refl,
        refl,
        ground arith,
        merged-debt now min_age max_age db_now r d,
      )

-- No row is left under the id that was folded.
pub merge-gone :
    (src dst : String) (db_now : ℕ) (rows : List Conversation)
    → str_eq src dst ≡ false
    → get_state src (merge_conversation_state src dst db_now rows).0 ≡ none
unfolding merge_conversation_state get_state
merge-gone src dst db_now rows ne = rw ne (elim (Option-cases (find? (is_of src) rows)) [
  | inl e ↦ rw e e
  | inr (r, e) ↦ rw e (find-drop_self src (upsert dst (moved dst db_now r) (merged r db_now) rows))
])
