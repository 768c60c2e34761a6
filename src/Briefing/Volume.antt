-- ===== src/Briefing/Volume.antt =====
-- The volume rule of agent/services/briefing.py: above a budget of lines, sections of a low priority
-- become one line each.
use Prim.Native.String.{◌++◌ as cat}
use evi.Common.{
  ℕ, ◌+◌, ◌-◌, String, Bool, true, not, ◌&&◌, ◌||◌, Option, none, some, List, [], ◌∷◌, ◌++◌, ltb,
  leb, ◌==◌, str_eq, if◌then◌else◌, is_some, any, length, count, map,
}
use evi.Briefing.Items.{
  Key, Group, BriefItem, Section, calendar, tasks, email, whatsapp, awaiting, names, debts,
  promises, commitments, key_eq, group_eq, same_group, count_all, number_sections,
}

-- `html.escape`, `strip_markers`, `_user_from_model`, and the decimal text of a number.
pub record Texts : Type 0 where
  pub esc : String → String
  pub strip_markers : String → String
  pub user_from_model : String → String
  pub show : ℕ → String

-- _PLAIN_TITLES
abbrev pub plain_title : Key → String
plain_title calendar = "Agenda"
plain_title tasks = "Tarefas"
plain_title email = "E-mail"
plain_title whatsapp = "WhatsApp"
plain_title awaiting = "Esperando resposta deles"
plain_title names = "Conversas sem nome"

-- What stands before the first space in _USER_TITLES.
abbrev pub emoji : Key → String
emoji calendar = "📅"
emoji tasks = "✅"
emoji email = "✉\u{fe0f}"
emoji whatsapp = "💬"
emoji awaiting = "⏳"
emoji names = "🏷"

-- _USER_TITLES
abbrev pub user_title : Key → String
user_title key = cat (emoji key) (cat " " (plain_title key))

-- _GROUP_TITLES
abbrev pub group_title : Group → String
group_title debts = "💬 Esperando sua resposta"
group_title promises = "🤝 Suas promessas"
group_title commitments = "📌 Combinados"

-- _NOUNS: singular, plural and the request that lists all
pub record Nouns : Type 0 where
  pub one : String
  pub many : String
  pub ask : String

abbrev nouns : String → String → String → Nouns
nouns one many ask = record { one = one; many = many; ask = ask }

abbrev pub key_nouns : Key → Nouns
key_nouns calendar = nouns "evento" "eventos" "minha agenda"
key_nouns tasks = nouns "tarefa" "tarefas" "minhas tarefas"
key_nouns email = nouns "e-mail" "e-mails" "resumo dos e-mails"
key_nouns whatsapp = nouns "pendência do WhatsApp" "pendências do WhatsApp" "pendências do WhatsApp"
key_nouns awaiting = nouns "conversa sem resposta" "conversas sem resposta" "quem não me respondeu"
key_nouns names = nouns "conversa sem nome" "conversas sem nome" "conversas sem nome"

abbrev pub group_nouns : Group → Nouns
group_nouns debts = nouns "conversa" "conversas" "quem está esperando minha resposta"
group_nouns promises = nouns "promessa" "promessas" "minhas promessas"
group_nouns commitments = nouns "combinado" "combinados" "meus compromissos"

module _ (t : Texts) where
  abbrev pub bold : String → String
  bold text = cat "<b>" (cat (t.esc text) "</b>")

  abbrev pub summary : ℕ → Nouns → String
  summary n w =
      cat (t.show n)
        (cat " " (cat (if n == 1 then w.one else w.many) (cat " — peça \"" (cat w.ask "\""))))

  abbrev pub more_text : ℕ → Nouns → String
  more_text n w = cat "+" (summary n w)

  -- `_item_user_line`
  abbrev pub item_user_line : BriefItem → String
  item_user_line it =
      cat (t.show it.n)
        (cat ". " (if str_eq it.user "" then t.user_from_model it.text else it.user))

  -- The title of a group that begins here, after an empty line unless it is the first.
  abbrev pub heading : Option Group → Option Group → List String
  heading none cur = []
  heading (some g) none = bold (group_title g) ∷ []
  heading (some g) (some h) = if group_eq g h then [] else "" ∷ bold (group_title g) ∷ []

  abbrev pub next_group : List BriefItem → Option Group
  next_group [] = none
  next_group (it ∷ its) = it.group

  abbrev pub omitted : Group → List (Option Group × ℕ) → ℕ
  omitted g [] = 0
  omitted g ((h, n) ∷ rest) = if same_group h (some g) then n else omitted g rest

  -- What a group omits, where it ends here.
  abbrev pub closing : Option Group → Option Group → List (Option Group × ℕ) → List String
  closing none next group_more = []
  closing (some g) next group_more =
      if same_group next (some g) || omitted g group_more == 0
      then []
      else t.esc (more_text (omitted g group_more) (group_nouns g)) ∷ []

  abbrev pub current : Option Group → Option Group → Option Group
  current none cur = cur
  current (some g) cur = some g

  unfoldable pub item_lines : List (Option Group × ℕ) → Option Group → List BriefItem → List String
  item_lines group_more cur [] = []
  item_lines group_more cur (it ∷ its) =
      heading it.group cur
      ++ item_user_line it ∷ closing it.group (next_group its) group_more
      ++ item_lines group_more (current it.group cur) its

  abbrev pub has_items : Section → Bool
  has_items s = ltb 0 (length s.items)

  unfoldable pub user_section_lines : Section → List String
  unfolding item_lines count_all
  user_section_lines s =
      if not (str_eq s.error "") && s.in_banner
      then cat "⚠ " (cat (t.esc (plain_title s.key)) " indisponível (ver aviso acima)") ∷ []
      else if not (str_eq s.error "")
      then cat "⚠ " (
          cat (t.esc (plain_title s.key))
            (cat " indisponível — " (t.esc (t.strip_markers s.error))))
        ∷ []
      else if s.collapsed
      then cat (emoji s.key) (cat " " (t.esc (summary (count_all s) (key_nouns s.key)))) ∷ []
      else if not (has_items s)
      then []
      else (if any (λ it. is_some it.group) s.items then [] else bold (user_title s.key) ∷ [])
        ++ item_lines s.group_more none s.items
        ++ (if s.more == 0 then [] else t.esc (more_text s.more (key_nouns s.key)) ∷ [])

  abbrev pub body_lines : List Section → ℕ
  body_lines [] = 0
  body_lines (s ∷ ss) = count (λ line. not (str_eq line "")) (user_section_lines s) + body_lines ss

  unfoldable pub volume_lines : List Section → ℕ
  unfolding user_section_lines
  volume_lines ss = 1 + body_lines ss + (if any has_items ss then 1 else 0)

  -- A section that could become one line.
  abbrev pub is_foldable : Section → Bool
  is_foldable s = has_items s && str_eq s.error "" && not s.collapsed

  -- `replace(sec, items=[], more=0, group_more={}, collapsed=True, total=sec.count())`
  unfoldable pub collapse : Key → Section → Section
  unfolding count_all
  collapse key s =
      if key_eq s.key key && is_foldable s
      then record s { items = []; more = 0; group_more = []; collapsed = true; total = count_all s }
      else s

  -- COLLAPSE_ORDER
  abbrev pub collapse_order : List Key
  collapse_order = email ∷ awaiting ∷ tasks ∷ calendar ∷ names ∷ whatsapp ∷ []

  unfoldable pub fit_from : List Key → ℕ → List Section → List Section
  unfolding volume_lines collapse
  fit_from [] budget out = out
  fit_from (key ∷ keys) budget out =
      let rest = fit_from keys budget (map (collapse key) out) in
      if leb (volume_lines out) budget then out else rest

  unfoldable pub fit_volume : ℕ → List Section → List Section
  unfolding fit_from
  fit_volume budget ss = fit_from collapse_order budget ss

  -- MAX_LINES
  abbrev pub max_lines : ℕ
  max_lines = 25

  -- The sections that `assemble_briefing` shows: the lines of the banner come first.
  unfoldable pub shown_sections : ℕ → List Section → List Section
  unfolding fit_volume number_sections
  shown_sections banner raw = number_sections 0 (fit_volume (max_lines - banner) raw)
