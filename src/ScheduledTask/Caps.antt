-- ===== src/ScheduledTask/Caps.antt =====
-- Never more than ten live tasks, whatever is created, paused, resumed, claimed or deleted.
use evi.Common.{
  ℕ, suc, ◌≤◌, Bool, true, false, not, ◌&&◌, Option, some, none, List, [], ◌∷◌, arith, count, ◌==◌,
  if_both, refl, update,
}
use evi.Common.Keyed.{Unique-update}
use evi.Common.Counts.{count-append, count-update_le, count-le_others, count_others-update}
use evi.ScheduledTask.{
  Tasks, is_live, is_full, kept_row, set_row, finished, claimable, claim_row, create_scheduled_task,
  delete_scheduled_task, set_scheduled_task_active, claim_scheduled_task, finish_scheduled_task,
  count_active_scheduled_tasks,
}
use evi.ScheduledTask.Ops.{
  Op, create, delete, pause, resume, claim, finish, apply, run, IsValid, apply-IsValid, max_active,
}

pub apply_cap :
    (op : Op) (s : Tasks)
    → IsValid s
    → count is_live s.rows ≤ max_active
    → count is_live (apply op s).rows ≤ max_active
unfolding apply create_scheduled_task delete_scheduled_task set_scheduled_task_active
    claim_scheduled_task finish_scheduled_task
apply_cap (create title prompt next_at repeat db_now) s v h =
    if_both (λ (out : Tasks × Option ℕ). count is_live out.0.rows ≤ max_active)
      (is_full (some max_active) (count is_live s.rows)) (λ _. h)
      (λ room.
        let free : suc (count is_live s.rows) ≤ max_active = ground arith in
        omega (arith, count-append is_live s.rows _))
apply_cap (delete id db_now) s v h = omega (
  arith,
  count-update_le is_live (kept_row id) (λ t. record t { deleted_at = some db_now; active = false })
      s.rows (λ t k l. cc),
)
apply_cap (pause id) s v h =
    omega (arith, count-update_le is_live (kept_row id) (set_row false none) s.rows (λ t k l. cc))
apply_cap (resume id next_at) s v h =
    let others = count (λ t. is_live t && not (t.id == id)) s.rows in
    if_both (λ (out : Tasks × Bool). count is_live out.0.rows ≤ max_active)
      (is_full (some max_active) others) (λ _. h)
      (λ room.
        let free : suc others ≤ max_active = ground arith in
        let rows = update (kept_row id) (set_row true (some next_at)) s.rows in
        omega (
          arith,
          count-le_others (λ t. t.id) is_live id rows
              (Unique-update (λ t. t.id) (kept_row id) (set_row true (some next_at)) s.rows
                (λ t. refl) v.unique),
          count_others-update (λ t. t.id) is_live (kept_row id) (set_row true (some next_at)) id
              s.rows (λ t. refl) (λ t k. ground arith),
        ))
apply_cap (claim id expected next active day count_run) s v h = omega (
  arith,
  count-update_le is_live (claimable id expected) (claim_row next active day count_run) s.rows
      (λ t k l. ground arith),
)
apply_cap (finish id status ran_at) s v h =
    omega (
      arith,
      count-update_le is_live (λ t. t.id == id) (finished status ran_at) s.rows (λ t k l. l),
    )

-- However many tasks are created, paused, resumed, claimed, finished and deleted, there are at most
-- ten live ones, from a table with unique ids below its counter and at most ten.
pub active_cap :
    (ops : List Op) (s : Tasks)
    → IsValid s
    → count_active_scheduled_tasks s ≤ max_active
    → count_active_scheduled_tasks (run ops s) ≤ max_active
unfolding run count_active_scheduled_tasks
active_cap [] s v h = h
active_cap (op ∷ ops) s v h =
    active_cap ops (apply op s) (apply-IsValid op s v) (apply_cap op s v h)
