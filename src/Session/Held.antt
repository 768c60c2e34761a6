-- ===== src/Session/Held.antt =====
-- A lock that is held stays the lock of its session.
use evi.Common.{
  ℕ, ◌≡◌, refl, sym, ◌∙◌, String, true, false, not, ◌||◌, Option, none, some, List, [], ◌∷◌, ◌++◌,
  ltb, str_eq, eq_iff, if_both, select, find?, find-append, length, contains, arith, Bool-cases,
  inl, inr,
}
use evi.Session.{Lane, Lanes, is_lane, evict_lanes, taken, get_lane_lock}

-- The session has this lock.
abbrev pub Has : String → Lane → Lanes → Type 0
Has k l s = find? (is_lane k) s.lanes ≡ some l

module _ (k : String) (l : Lane) where
  find-drop_other :
      (sid : String) (ls : List Lane)
      → str_eq sid k ≡ false
      → find? (is_lane k) (select (λ x. not (is_lane sid x)) ls) ≡ find? (is_lane k) ls
  find-drop_other sid [] ne = refl
  find-drop_other sid (x ∷ ls) ne =
      ground (arith, ne, eq_iff x.sid k, eq_iff x.sid sid, eq_iff sid k, find-drop_other sid ls ne)

  find-drop_append :
      (ls : List Lane)
      → is_lane k l ≡ true
      → find? (is_lane k) (select (λ x. not (is_lane k x)) ls ++ l ∷ []) ≡ some l
  find-drop_append [] own = rw own refl
  find-drop_append (x ∷ ls) own = ground (arith, find-drop_append ls own)

  find-own : (ls : List Lane) → find? (is_lane k) ls ≡ some l → is_lane k l ≡ true
  find-own [] h = absurd (ground arith)
  find-own (x ∷ ls) h = elim (Bool-cases (is_lane k x)) [
    | inl e ↦
        let same : ◌≡◌ {A = Option Lane} (some x) (some l) = rw e at h in ground (arith, same, e)
    | inr e ↦ find-own ls (rw e at h)
  ]

  evict-keeps :
      (limit : ℕ) (held : List ℕ) (sid : String) (ls : List Lane)
      → contains l.lock held ≡ true
      → find? (is_lane k) ls ≡ some l
      → find? (is_lane k) (evict_lanes limit held sid ls) ≡ some l
  unfolding evict_lanes
  evict-keeps limit held sid [] locked h = h
  evict-keeps limit held sid (x ∷ ls) locked h =
      let Keeps : List Lane → Type 0 = λ out. find? (is_lane k) out ≡ some l in
      if_both Keeps (ltb limit (length (x ∷ ls)))
        (λ _.
          if_both Keeps (is_lane sid x || contains x.lock held) (λ _. h)
            (λ free. elim (Bool-cases (is_lane k x)) [
              | inl e ↦
                  let same : ◌≡◌ {A = Option Lane} (some x) (some l) = rw e at h in
                  let x_is : x ≡ l = cc same in
                  let busy : contains x.lock held ≡ true = rw x_is locked in
                  absurd (ground (arith, free, busy))
              | inr e ↦ evict-keeps limit held sid ls locked (rw e at h)
            ]))
        (λ _. h)

  taken-Has :
      (sid : String) (o : Option Lane) (s : Lanes)
      → find? (is_lane sid) s.lanes ≡ o
      → Has k l s
      → Has k l (taken sid o s).0
  taken-Has sid none s e h = find-append (is_lane k) s.lanes _ l h
  taken-Has sid (some m) s e h = elim (Bool-cases (str_eq sid k)) [
    | inl same ↦
        let key : sid ≡ k = (eq_iff sid k).0 same in
        let found : ◌≡◌ {A = Option Lane} (some l) (some m) = sym h ∙ (rw key at e) in
        let m_is : l ≡ m = cc found in
        rw key (rw⁻¹ m_is (find-drop_append s.lanes (find-own s.lanes h)))
    | inr ne ↦ find-append (is_lane k) _ _ l (find-drop_other sid s.lanes ne ∙ h)
  ]

  lane-Has :
      (limit : ℕ) (held : List ℕ) (sid : String) (s : Lanes)
      → contains l.lock held ≡ true
      → Has k l s
      → Has k l (get_lane_lock limit held sid s).0
  unfolding get_lane_lock
  lane-Has limit held sid s locked h =
      evict-keeps limit held sid (taken sid (find? (is_lane sid) s.lanes) s).0.lanes locked
        (taken-Has sid (find? (is_lane sid) s.lanes) s refl h)

-- Sessions that ask for their locks, each with the locks that are held at that time.
unfoldable pub ask_all : ℕ → List (List ℕ × String) → Lanes → Lanes
ask_all limit [] s = s
ask_all limit ((held, sid) ∷ asks) s = ask_all limit asks (get_lane_lock limit held sid s).0

abbrev pub AllHold : ℕ → List (List ℕ × String) → Type 0
AllHold lock [] = Unit
AllHold lock ((held, sid) ∷ asks) = (contains lock held ≡ true) × AllHold lock asks

ask_all-Has :
    (k : String) (l : Lane) (limit : ℕ) (asks : List (List ℕ × String)) (s : Lanes)
    → AllHold l.lock asks
    → Has k l s
    → Has k l (ask_all limit asks s)
unfolding ask_all
ask_all-Has k l limit [] s all h = h
ask_all-Has k l limit ((held, sid) ∷ asks) s all h =
    ask_all-Has k l limit asks (get_lane_lock limit held sid s).0 all.1
      (lane-Has k l limit held sid s all.0 h)

-- While the lock of a session is held, however many sessions ask for their locks and whatever the
-- limit, who asks for the lock of that session gets the one that is held.
pub held_lane :
    (k : String) (l : Lane) (limit : ℕ) (held : List ℕ) (asks : List (List ℕ × String)) (s : Lanes)
    → AllHold l.lock asks
    → Has k l s
    → (get_lane_lock limit held k (ask_all limit asks s)).1 ≡ l.lock
unfolding get_lane_lock
held_lane k l limit held asks s all h = rw (ask_all-Has k l limit asks s all h) refl
