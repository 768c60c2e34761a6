-- ===== src/Identity/Canonical.antt =====
-- The pair that was recorded is the one that is answered.
use text.Mathlib.TextPositions.{eq_refl}
use evi.Common.{
  ℕ, ◌+◌, ◌≡◌, refl, String, Bool, true, false, not, ◌||◌, none, some, List, [], ◌∷◌, ◌++◌, ltb,
  str_eq, eq_iff, if_both, any, find?, update, arith, Bool-cases, inl, inr, Option, All, select,
  ◌∙◌,
}
use evi.Conversation.{get_state}
use evi.Conversation.Merge.{merge_conversation_state}
use evi.Conversation.Merging.{merge-gone}
use evi.Identity.{
  Alias, Identity, Env, is_alias_of, upsert_jid_alias, get_jid_alias, phone_of, cached, remember,
  Hit, live, look_up, answer_from, canonical_jid, is_known, record_alias, ttl,
}

module _ (lid phone : String) (db_now : ℕ) where
  updated-phone :
      (rows : List Alias)
      → any (is_alias_of lid) rows ≡ true
      → phone_of (
          find?
            (is_alias_of lid)
            (update (is_alias_of lid) (λ a. record a { phone_jid = phone; seen_at = db_now }) rows))
        ≡ some phone
  updated-phone [] e = absurd (ground (arith, e))
  updated-phone (a ∷ rows) e = ground (arith, e, updated-phone rows)

  appended-phone :
      (rows : List Alias)
      → any (is_alias_of lid) rows ≡ false
      → phone_of (
          find?
            (is_alias_of lid)
            (rows ++ record { lid = lid; phone_jid = phone; seen_at = db_now } ∷ []))
        ≡ some phone
  appended-phone [] e = ground (arith, eq_iff lid lid)
  appended-phone (a ∷ rows) e = ground (arith, e, appended-phone rows)

  get-upsert :
      (rows : List Alias) → get_jid_alias lid (upsert_jid_alias lid phone db_now rows) ≡ some phone
  unfolding get_jid_alias upsert_jid_alias
  get-upsert rows =
      if_both (λ (rs : List Alias). phone_of (find? (is_alias_of lid) rs) ≡ some phone)
        (any (is_alias_of lid) rows) (updated-phone rows) (appended-phone rows)

-- What stands after a pair was written and the conversations were merged.
abbrev after_recording : Env → String → String → Identity → Identity
after_recording env lid phone s = record {
  aliases = upsert_jid_alias lid phone env.db_now s.aliases;
  conversations = (merge_conversation_state lid phone env.db_now s.conversations).0;
  cache = remember lid (record { ends = env.now + ttl; phone = phone }) s.cache;
}

abbrev Writes : Env → String → String → Identity → Identity × Bool → Type 0
Writes env lid phone s out = out.1 ≡ true → out.0 ≡ after_recording env lid phone s

record_alias-Writes :
    (env : Env) (lid phone : String) (s : Identity)
    → Writes env lid phone s (record_alias env lid phone s)
unfolding record_alias
record_alias-Writes env lid phone s =
    let nothing : Writes env lid phone s (s, false) = λ h. absurd (ground (arith, h)) in
    if_both (Writes env lid phone s) (not (env.is_lid lid) || not (env.is_phone phone))
      (λ _. nothing)
      (λ _.
        if_both (Writes env lid phone s) (not env.has_database) (λ _. nothing)
          (λ _.
            if_both (Writes env lid phone s) (is_known (live env.now (cached lid s.cache)) phone)
              (λ _. nothing)
              (λ _.
                if_both (Writes env lid phone s) (not env.db_ok) (λ _. nothing)
                  (λ _.
                    if_both (Writes env lid phone s) (not env.merge_ok)
                      (λ _ h. absurd (ground (arith, h))) (λ _ _. refl)))))

cached-select :
    (jid lid : String) (c : List (String × Hit))
    → str_eq jid lid ≡ false
    → cached lid (select (λ e. not (str_eq e.0 jid)) c) ≡ cached lid c
cached-select jid lid [] n = refl
cached-select jid lid ((k, h) ∷ c) n =
    ground (arith, cached-select jid lid c n, eq_iff k jid, eq_iff k lid, eq_iff jid lid)

-- The table and the cache have the pair.
abbrev Knows : String → String → Identity → Type 0
Knows lid phone s =
    (get_jid_alias lid s.aliases ≡ some phone)
    × ((h : Hit) × (cached lid s.cache ≡ some h) × (h.phone ≡ phone))

recorded-Knows :
    (env : Env) (lid phone : String) (s : Identity)
    → Knows lid phone (after_recording env lid phone s)
recorded-Knows env lid phone s = (
  get-upsert lid phone env.db_now s.aliases,
  (record { ends = env.now + ttl; phone = phone }, rw (eq_refl lid) refl, refl),
)

module _ (lid phone : String) (full : str_eq phone "" ≡ false) where
  look_up-Knows :
      (env : Env) (jid : String) (s : Identity)
      → env.db_ok ≡ true
      → Knows lid phone s
      → Knows lid phone (look_up env jid s).0
  look_up-Knows env jid s ok (found, (h, at, same)) = elim (Bool-cases (str_eq jid lid)) [
    | inl e ↦
        let own : jid ≡ lid = (eq_iff jid lid).0 e in
        rw (own, ok)
          (
            found,
            (
              record { ends = env.now + ttl; phone = phone },
              rw (found, full, eq_refl lid) refl,
              refl,
            ),
          )
    | inr e ↦ rw ok (found, (h, rw (e, cached-select jid lid s.cache e) at, same))
  ]

  answer_from-Knows :
      (env : Env) (jid : String) (o : Option String) (s : Identity)
      → env.db_ok ≡ true
      → Knows lid phone s
      → Knows lid phone (answer_from env jid o s).0
  answer_from-Knows env jid none s ok k = look_up-Knows env jid s ok k
  answer_from-Knows env jid (some known) s ok k = k

  canonical_jid-Knows :
      (env : Env) (jid : String) (s : Identity)
      → env.db_ok ≡ true
      → Knows lid phone s
      → Knows lid phone (canonical_jid env jid s).0
  unfolding canonical_jid
  canonical_jid-Knows env jid s ok k =
      if_both (λ (out : Identity × String). Knows lid phone out.0)
        (not (env.is_lid jid) || not env.has_database) (λ _. k)
        (λ _. answer_from-Knows env jid (live env.now (cached jid s.cache)) s ok k)

  known_answer :
      (env : Env) (s : Identity)
      → env.db_ok ≡ true
      → Knows lid phone s
      → (answer_from env lid (live env.now (cached lid s.cache)) s).1 ≡ phone
  known_answer env s ok (found, (h, at, same)) = elim (Bool-cases (ltb env.now h.ends)) [
    | inl e ↦ rw (at, e) same
    | inr e ↦ rw (at, e, found, ok, full) refl
  ]

answer_from-conversations :
    (env : Env) (jid : String) (o : Option String) (s : Identity)
    → (answer_from env jid o s).0.conversations ≡ s.conversations
answer_from-conversations env jid none s =
    if_both (λ (out : Identity × String). out.0.conversations ≡ s.conversations) env.db_ok
      (λ _. refl) (λ _. refl)
answer_from-conversations env jid (some known) s = refl

canonical_jid-conversations :
    (env : Env) (jid : String) (s : Identity)
    → (canonical_jid env jid s).0.conversations ≡ s.conversations
unfolding canonical_jid
canonical_jid-conversations env jid s =
    if_both (λ (out : Identity × String). out.0.conversations ≡ s.conversations)
      (not (env.is_lid jid) || not env.has_database) (λ _. refl)
      (λ _. answer_from-conversations env jid (live env.now (cached jid s.cache)) s)

-- Questions for any ids, one after the other.
unfoldable pub asked : List (Env × String) → Identity → Identity
unfolding canonical_jid
asked [] s = s
asked ((env, jid) ∷ qs) s = asked qs (canonical_jid env jid s).0

asked-Knows :
    (lid phone : String) (qs : List (Env × String)) (s : Identity)
    → str_eq phone "" ≡ false
    → All (λ q. q.0.db_ok ≡ true) qs
    → Knows lid phone s
    → Knows lid phone (asked qs s) × ((asked qs s).conversations ≡ s.conversations)
unfolding asked
asked-Knows lid phone [] s full ok k = (k, refl)
asked-Knows lid phone ((env, jid) ∷ qs) s full ok k =
    let s' = (canonical_jid env jid s).0 in
    let rest =
      asked-Knows lid phone qs s' full ok.1 (canonical_jid-Knows lid phone full env jid s ok.0 k) in
    (rest.0, rest.1 ∙ canonical_jid-conversations env jid s)

-- After a pair of an alias and a phone was recorded, and whatever ids `canonical_jid` is then asked for,
-- where the database answers in each of these calls, the alias is answered by the phone, from the cache
-- or from the table, and no conversation stands under the alias.
pub canonical_recorded :
    (env env' : Env) (lid phone : String) (s : Identity) (qs : List (Env × String))
    → (record_alias env lid phone s).1 ≡ true
    → str_eq phone "" ≡ false
    → str_eq lid phone ≡ false
    → All (λ q. q.0.db_ok ≡ true) qs
    → env'.is_lid lid ≡ true
    → env'.has_database ≡ true
    → env'.db_ok ≡ true
    → let s' = asked qs (record_alias env lid phone s).0 in
      ((canonical_jid env' lid s').1 ≡ phone) × (get_state lid s'.conversations ≡ none)
unfolding canonical_jid
canonical_recorded env env' lid phone s qs h full ne oks is_lid database ok =
    rw (record_alias-Writes env lid phone s h) (
      let there = after_recording env lid phone s in
      let (k, same) = asked-Knows lid phone qs there full oks (recorded-Knows env lid phone s) in
      (
        rw (is_lid, database) (known_answer lid phone full env' (asked qs there) ok k),
        rw same (merge-gone lid phone env.db_now s.conversations ne),
      ))
