-- ===== src/Webhook/Once.antt =====
-- A message that was handled is not handled again while its id is among the newest 5000.
use evi.Common.{
  ℕ, ◌+◌, ◌≤◌, ◌≡◌, refl, String, Bool, true, false, ◌||◌, Option, List, [], ◌∷◌, str_eq, any,
  count, length, arith, inl, inr,
}
use evi.Webhook.{IncomingMessage}
use evi.Webhook.Filter.{Settings}
use evi.Webhook.Recent.{Recent}
use evi.Webhook.Claims.{is_id, Recent_mono}
use evi.Webhook.Route.{Control, Handled, evolution_webhook}
use evi.Webhook.Routing.{webhook-Recent, webhook_commands, webhook_kept}

-- Webhooks that come one after the other, each at its time.
unfoldable pub webhooks :
    Settings
    → Control
    → List (ℕ × List IncomingMessage)
    → Option (List String)
    → Option (List String)
webhooks c ctl [] file = file
webhooks c ctl ((now, ms) ∷ calls) file =
    webhooks c ctl calls (evolution_webhook c ctl now ms file).file

-- How often a command with the id is carried out by them.
unfoldable pub carried_out :
    String → Settings → Control → List (ℕ × List IncomingMessage) → Option (List String) → ℕ
carried_out id c ctl [] file = 0
carried_out id c ctl ((now, ms) ∷ calls) file =
    let out = evolution_webhook c ctl now ms file in
    count (is_id id) out.control + carried_out id c ctl calls out.file

abbrev pub total : List (ℕ × List IncomingMessage) → ℕ
total [] = 0
total ((now, ms) ∷ calls) = length ms + total calls

-- Whether a webhook carried out a command with the id, or read a message with it.
abbrev pub has_handled : String → Handled → Bool
has_handled id out = any (is_id id) out.control || any (is_id id) out.kept

count-any :
    (id : String) (ms : List IncomingMessage) → count (is_id id) ms ≡ 0 → any (is_id id) ms ≡ false
count-any id [] e = refl
count-any id (m ∷ ms) e = ground (arith, e, count-any id ms)

module _ (id : String) (c : Settings) (ctl : Control) (on : c.dedupe ≡ true)
    (filled : str_eq id "" ≡ false) where
  webhooks-Recent :
      (n : ℕ) (calls : List (ℕ × List IncomingMessage)) (file : Option (List String))
      → n + total calls ≤ 5000
      → Recent id n file
      → Recent id (n + total calls) (webhooks c ctl calls file)
        × (carried_out id c ctl calls file ≡ 0)
  unfolding webhooks carried_out
  webhooks-Recent n [] file le h = (Recent_mono id n (n + 0) file (omega arith) h, refl)
  webhooks-Recent n ((now, ms) ∷ calls) file le h =
      let (quiet, kept) = webhook-Recent id c ctl on filled now n ms file (omega (arith, le)) h in
      let out = evolution_webhook c ctl now ms file in
      let rest = webhooks-Recent (n + length ms) calls out.file (omega (arith, le)) kept in
      (
        Recent_mono id (n + length ms + total calls) (n + (length ms + total calls)) _ (omega arith)
            rest.0,
        omega (arith, quiet.0, rest.1),
      )

  -- Where ids are remembered, in any sequence of webhooks that bring at most 5000 messages together, at
  -- most one command of the user with an id that is not empty is carried out.
  pub command_once :
      (calls : List (ℕ × List IncomingMessage)) (file : Option (List String))
      → total calls ≤ 5000
      → carried_out id c ctl calls file ≤ 1
  unfolding carried_out
  command_once [] file le = omega arith
  command_once ((now, ms) ∷ calls) file le =
      let out = evolution_webhook c ctl now ms file in
      elim (webhook_commands id c ctl on filled now ms file (omega (arith, le))) [
        | inl e ↦ omega (arith, e, command_once calls out.file (omega (arith, le)))
        | inr s ↦
            omega
              (arith, s.0, (webhooks-Recent (length ms) calls out.file (omega (arith, le)) s.1).1)
      ]

  handled-Recent :
      (now : ℕ) (ms : List IncomingMessage) (file : Option (List String))
      → length ms ≤ 5000
      → has_handled id (evolution_webhook c ctl now ms file) ≡ true
      → Recent id (length ms) (evolution_webhook c ctl now ms file).file
  handled-Recent now ms file le h =
      let out = evolution_webhook c ctl now ms file in
      elim (webhook_commands id c ctl on filled now ms file le) [
        | inl e ↦
            webhook_kept id c ctl on filled now ms file le
              (ground (arith, h, count-any id out.control e))
        | inr s ↦ s.1
      ]

  -- Where ids are remembered and an id is not empty, a webhook that carried out a command with the id or
  -- read a message with it is followed by none that does either, whatever webhooks come between and
  -- whenever, as long as all of them together bring at most 5000 messages.
  pub handled_once :
      (now later : ℕ) (ms again : List IncomingMessage) (calls : List (ℕ × List IncomingMessage))
      (file : Option (List String))
      → length ms + total calls + length again ≤ 5000
      → has_handled id (evolution_webhook c ctl now ms file) ≡ true
      → has_handled id (
          evolution_webhook c ctl later again
            (webhooks c ctl calls (evolution_webhook c ctl now ms file).file))
        ≡ false
  handled_once now later ms again calls file le h =
      let seen = handled-Recent now ms file (omega (arith, le)) h in
      let file' = (evolution_webhook c ctl now ms file).file in
      let (kept, none_carried) = webhooks-Recent (length ms) calls file' (omega (arith, le)) seen in
      let last = evolution_webhook c ctl later again (webhooks c ctl calls file') in
      let (quiet, stays) =
        webhook-Recent id c ctl on filled later (length ms + total calls) again
          (webhooks c ctl calls file') le kept in
      ground (arith, quiet.1, count-any id last.control quiet.0)
