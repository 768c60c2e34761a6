-- ===== src/Examples/Sessions.antt =====
-- Two lanes, of which one is held, with a limit of one session.
use evi.Common.{◌≡◌, ℕ, refl, String, List, [], ◌∷◌}
use evi.Session.{Lane, Lanes, get_lane_lock}
use evi.Session.Held.{ask_all, held_lane}

abbrev busy : Lane
busy = record { sid = "a"; lock = 1 }

abbrev lanes : Lanes
lanes = record { lanes = busy ∷ record { sid = "b"; lock = 2 } ∷ []; next_lock = 3 }

abbrev asks : List (List ℕ × String)
asks = (1 ∷ [], "c") ∷ (1 ∷ [], "d") ∷ (1 ∷ 2 ∷ [], "a") ∷ []

held_lane_example : (get_lane_lock 1 (1 ∷ []) "a" (ask_all 1 asks lanes)).1 ≡ busy.lock
held_lane_example = held_lane "a" busy 1 (1 ∷ []) asks lanes (refl, (refl, (refl, tt))) refl

-- A lock that its caller has not acquired yet is dropped, and the session gets another.
unheld_lane_lost : (get_lane_lock 1 [] "b" (get_lane_lock 1 [] "c" lanes).0).1 ≡ 4
unfolding get_lane_lock
unheld_lane_lost = refl
