-- ===== src/ScheduledTask/Ops.antt =====
-- The calls on the table as data, and what every one of them keeps: unique ids.
use evi.Common.{
  ℕ, suc, ◌<◌, String, Bool, Option, some, List, [], ◌∷◌, All, All-map_imp, All-append, All-update,
  update, arith, refl, ◌≡◌, if_both, true, false, not, ◌&&◌, count, ◌==◌,
}
use evi.Common.Keyed.{Unique, Unique-update, Unique-append}
use evi.Reminder.{Repeat}
use evi.ScheduledTask.{
  Task, Tasks, create_scheduled_task, delete_scheduled_task, set_scheduled_task_active,
  claim_scheduled_task, finish_scheduled_task, kept_row, set_row, finished, claimable, claim_row,
  is_full, is_live,
}

-- MAX_ACTIVE of agent/services/scheduled_tasks.py
abbrev pub max_active : ℕ
max_active = 10

pub data Op : Type 0 where
  create : String → String → ℕ → Option Repeat → ℕ → Op
  delete : ℕ → ℕ → Op
  pause : ℕ → Op
  resume : ℕ → ℕ → Op
  claim : ℕ → ℕ → ℕ → Bool → ℕ → Bool → Op
  finish : ℕ → String → Option ℕ → Op

unfoldable pub apply : Op → Tasks → Tasks
apply (create title prompt next_at repeat db_now) s =
    (create_scheduled_task title prompt next_at repeat (some max_active) db_now s).0
apply (delete id db_now) s = (delete_scheduled_task id db_now s).0
apply (pause id) s = (set_scheduled_task_active id false Option.none Option.none s).0
apply (resume id next_at) s =
    (set_scheduled_task_active id true (some next_at) (some max_active) s).0
apply (claim id expected next active day count_run) s =
    (claim_scheduled_task id expected next active day count_run s).0
apply (finish id status ran_at) s = finish_scheduled_task id status ran_at s

unfoldable pub run : List Op → Tasks → Tasks
run [] s = s
run (op ∷ ops) s = run ops (apply op s)

pub record IsValid (s : Tasks) : Type 0 where
  pub unique : Unique (λ (t : Task). t.id) s.rows
  pub below : All (λ (t : Task). t.id < s.next_id) s.rows

module _ (p : Task → Bool) (f : Task → Task) (keep : (t : Task) → (f t).id ≡ t.id) where
  pub update-IsValid : (s : Tasks) → IsValid s → IsValid (record s { rows = update p f s.rows })
  update-IsValid s v = record {
    unique = Unique-update (λ t. t.id) p f s.rows keep v.unique;
    below = All-update (λ t. t.id < s.next_id) p f s.rows (λ t _ h. rw (keep t) h) v.below;
  }

pub apply-IsValid : (op : Op) (s : Tasks) → IsValid s → IsValid (apply op s)
unfolding apply create_scheduled_task delete_scheduled_task set_scheduled_task_active
    claim_scheduled_task finish_scheduled_task
apply-IsValid (create title prompt next_at repeat db_now) s v =
    if_both (λ (out : Tasks × Option ℕ). IsValid out.0)
      (is_full (some max_active) (count is_live s.rows)) (λ _. v)
      (λ _. record {
        unique = Unique-append (λ t. t.id) s.rows _ v.below v.unique;
        below =
            All-append (λ t. t.id < suc s.next_id) s.rows _
              (All-map_imp (λ t h. omega arith) s.rows v.below) (omega arith, tt);
      })
apply-IsValid (delete id db_now) s v =
    update-IsValid (kept_row id) (λ t. record t { deleted_at = some db_now; active = false })
      (λ t. refl) s v
apply-IsValid (pause id) s v =
    update-IsValid (kept_row id) (set_row false Option.none) (λ t. refl) s v
apply-IsValid (resume id next_at) s v =
    if_both (λ (out : Tasks × Bool). IsValid out.0)
      (is_full (some max_active) (count (λ t. is_live t && not (t.id == id)) s.rows)) (λ _. v)
      (λ _. update-IsValid (kept_row id) (set_row true (some next_at)) (λ t. refl) s v)
apply-IsValid (claim id expected next active day count_run) s v =
    update-IsValid (claimable id expected) (claim_row next active day count_run) (λ t. refl) s v
apply-IsValid (finish id status ran_at) s v =
    update-IsValid (λ t. t.id == id) (finished status ran_at) (λ t. refl) s v
