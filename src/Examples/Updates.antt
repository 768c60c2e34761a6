-- ===== src/Examples/Updates.antt =====
-- A bot for which updates up to the number 3 wait, whose third round raises.
use evi.Common.{
  ℕ, ◌≡◌, refl, Option, none, some, List, [], ◌∷◌, arith, ltb, if◌then◌else◌, ◌==◌, if_both, subst,
}
use mathlib.Core.Option.{some-injective}
use evi.Poller.{Update, poll_loop, poll_rounds, take_updates}
use evi.Poller.Order.{Rising, Serves, poll_loop-Rising}

abbrev update_of : ℕ → Update
update_of n = record { update_id = some n; body = n }

-- One update for each call.
abbrev answer : ℕ → List Update
answer offset = if ltb offset 4 then update_of offset ∷ [] else []

abbrev bot : ℕ → ℕ → Option (List Update)
bot n offset = if n == 2 then none else some (answer offset)

bot-Serves : Serves bot
bot-Serves n offset us =
    if_both (λ (o : Option (List Update)). o ≡ some us → Rising offset us) (n == 2) (λ _ e. cc)
      (λ _ e.
        subst (Rising offset) (some-injective (answer offset) us e)
          (if_both (Rising offset) (ltb offset 4) (λ _. (offset, refl, omega arith, tt)) (λ _. tt)))

poll_loop-Rising_example : Rising 0 (poll_loop bot 5)
poll_loop-Rising_example = poll_loop-Rising bot 5 bot-Serves

four_processed : poll_loop bot 5 ≡ update_of 0 ∷ update_of 1 ∷ update_of 2 ∷ update_of 3 ∷ []
unfolding poll_loop poll_rounds take_updates
four_processed = refl
