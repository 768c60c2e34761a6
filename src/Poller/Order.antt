-- ===== src/Poller/Order.antt =====
-- No update is processed twice.
use evi.Common.{ℕ, zero, suc, ◌≤◌, ◌≡◌, refl, Option, none, some, List, [], ◌∷◌, ◌++◌}
use evi.Poller.{Update, take_updates, answered, poll_rounds, poll_loop}

-- Each update has a number, which is not below the bound and higher than those before it.
abbrev pub Rising : ℕ → List Update → Type 0
Rising bound [] = Unit
Rising bound (u ∷ us) = (uid : ℕ) × (u.update_id ≡ some uid) × (bound ≤ uid) × Rising (suc uid) us

-- What is documented of getUpdates: it answers with updates from the offset on, in their order.
abbrev pub Serves : (ℕ → ℕ → Option (List Update)) → Type 0
Serves fetch = (n offset : ℕ) (us : List Update) → fetch n offset ≡ some us → Rising offset us

-- The bound after some updates is the offset that they leave.
Rising-append :
    (bound : ℕ) (us more : List Update)
    → Rising bound us
    → Rising (take_updates us bound) more
    → Rising bound (us ++ more)
unfolding take_updates
Rising-append bound [] more r s = s
Rising-append bound (u ∷ us) more (uid, is_uid, le, r) s =
    (uid, is_uid, le, Rising-append (suc uid) us more r (rw is_uid at s))

answered-Rising :
    (offset : ℕ) (o : Option (List Update))
    → ((us : List Update) → o ≡ some us → Rising offset us)
    → Rising offset (answered o)
answered-Rising offset none h = tt
answered-Rising offset (some us) h = h us refl

rounds-Rising :
    (fetch : ℕ → ℕ → Option (List Update)) (rounds offset : ℕ)
    → Serves fetch
    → Rising offset (poll_rounds fetch rounds offset)
unfolding poll_rounds
rounds-Rising fetch zero offset serves = tt
rounds-Rising fetch (suc n) offset serves =
    let us = answered (fetch n offset) in
    Rising-append offset us (poll_rounds fetch n (take_updates us offset))
      (answered-Rising offset (fetch n offset) (serves n offset))
      (rounds-Rising fetch n (take_updates us offset) serves)

-- Where each answer of getUpdates has the updates from the offset on in their order, the updates that are
-- processed have ever higher numbers, however many rounds there are and whichever calls raise: none is
-- processed twice.
pub poll_loop-Rising :
    (fetch : ℕ → ℕ → Option (List Update)) (rounds : ℕ)
    → Serves fetch
    → Rising 0 (poll_loop fetch rounds)
unfolding poll_loop
poll_loop-Rising fetch rounds serves = rounds-Rising fetch rounds 0 serves
