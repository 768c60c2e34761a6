-- ===== src/WriteGuard/Channels.antt =====
-- `check_write`, `check_user_request` and `guarded_write` of agent/services/write_guard.py. The channel
-- is that of the turn in progress, `none` outside a turn.
use Prim.Native.String.{◌++◌ as cat}
use evi.Common.{
  ◌≡◌, ◌≢◌, ◌⊎◌, inl, inr, refl, String, Bool, true, ◌&&◌, Option, none, some, [], ◌∷◌, str_eq,
  if◌then◌else◌, any, is_some, if_both,
}
use evi.WriteGuard.{Texts}

-- SCHEDULED_CHANNEL
abbrev pub scheduled_channel : String
scheduled_channel = "scheduled"

-- membership in USER_CHANNELS
abbrev pub is_user_channel : String → Bool
is_user_channel c = any (λ u. str_eq c u) ("telegram" ∷ "whatsapp_control" ∷ "api" ∷ [])

abbrev pub blocked_text : String → String → String
blocked_text channel tool =
    cat "ação bloqueada: turno não iniciado pelo usuário (canal: "
      (cat channel (cat "; ferramenta: " (cat tool ")")))

unfoldable pub check_write : Option String → String → Option String
check_write none tool = none
check_write (some channel) tool =
    if str_eq channel scheduled_channel
    then some (blocked_text channel tool)
    else if is_user_channel channel
    then none
    else some (blocked_text channel tool)

abbrev pub no_user_request_message : String
no_user_request_message =
    "Só crio isso quando você pede na sua própria mensagem (mensagem encaminhada ou conteúdo externo não conta)."

unfoldable pub check_user_request : Texts → Option String → String → String → Option String
check_user_request x channel user_text tool = elim (check_write channel tool) [
  | some blocked ↦ some blocked
  | none ↦
      if is_some channel && str_eq (x.strip user_text) ""
      then some no_user_request_message
      else none
]

user_or_blocked :
    (c tool : String)
    → (is_user_channel c ≡ true) ⊎ (check_write (some c) tool ≡ some (blocked_text c tool))
unfolding check_write
user_or_blocked c tool =
    if_both (λ t. (is_user_channel c ≡ true) ⊎ (t ≡ some (blocked_text c tool)))
      (str_eq c scheduled_channel) (λ _. inr refl)
      (λ _.
        if_both (λ t. (is_user_channel c ≡ true) ⊎ (t ≡ some (blocked_text c tool)))
          (is_user_channel c) (λ user. inl user) (λ _. inr refl))

module _ {ℓ} {A : Type ℓ} where
  -- The decorator: `fn` is the tool, a function on a state that gives its reply.
  unfoldable pub guarded_write : Option String → String → (A → A × String) → A → A × String
  guarded_write channel tool fn a = elim (check_write channel tool) [
    | some blocked ↦ (a, blocked)
    | none ↦ fn a
  ]

  -- A guarded tool that changes the state, whatever it does, runs outside every turn or in a turn of
  -- one of the user's three channels.
  pub guarded_write_user :
      (channel : Option String) (tool : String) (fn : A → A × String) (a : A)
      → (guarded_write channel tool fn a).0 ≢ a
      → (channel ≡ none) ⊎ ((c : String) × (channel ≡ some c) × (is_user_channel c ≡ true))
  unfolding guarded_write check_write
  guarded_write_user none tool fn a h = inl refl
  guarded_write_user (some c) tool fn a h = elim (user_or_blocked c tool) [
    | inl user ↦ inr (c, refl, user)
    | inr blocked ↦ elim (h (rw (guarded_write, blocked) refl)) [ ]
  ]
