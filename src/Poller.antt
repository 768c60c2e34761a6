-- ===== src/Poller.antt =====
-- `_poll_loop` of agent/services/telegram_poller.py. What getUpdates answers is a parameter, none where
-- it raises; what processing an update raises is caught and changes nothing here.
pub mod Order
use evi.Common.{ℕ, zero, suc, Option, none, some, List, [], ◌∷◌, ◌++◌}

-- An update, with its number of the sender where it has one.
pub record Update : Type 0 where
  pub update_id : Option ℕ
  pub body : ℕ

abbrev pub offset_after : Option ℕ → ℕ → ℕ
offset_after none offset = offset
offset_after (some uid) offset = suc uid

-- The loop over the updates of one answer: the offset at its end.
unfoldable pub take_updates : List Update → ℕ → ℕ
take_updates [] offset = offset
take_updates (u ∷ us) offset = take_updates us (offset_after u.update_id offset)

-- The updates of an answer, none where the call raised.
abbrev pub answered : Option (List Update) → List Update
answered none = []
answered (some us) = us

-- `fetch n offset` is the answer of a round that `n` others follow; the updates that are processed, in
-- their order.
unfoldable pub poll_rounds : (ℕ → ℕ → Option (List Update)) → ℕ → ℕ → List Update
unfolding take_updates
poll_rounds fetch zero offset = []
poll_rounds fetch (suc n) offset =
    let us = answered (fetch n offset) in us ++ poll_rounds fetch n (take_updates us offset)

-- The loop until it is stopped after a number of rounds.
unfoldable pub poll_loop : (ℕ → ℕ → Option (List Update)) → ℕ → List Update
unfolding poll_rounds
poll_loop fetch rounds = poll_rounds fetch rounds 0
