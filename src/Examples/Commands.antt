-- ===== src/Examples/Commands.antt =====
-- A daily task that was paused before its time, and is resumed by its title.
use evi.Common.{◌≡◌, refl, true, false, none, some, [], ◌∷◌}
use evi.Calendar.Zone.{instant, to_local}
use evi.Recurrence.{next_occurrence}
use evi.Reminder.{Repeat}
use evi.ScheduledTask.{Task, Tasks, set_scheduled_task_active, list_scheduled_tasks}
use evi.ScheduledTask.Commands.{Wording, Env, find, find_in, resume}
use evi.ScheduledTask.Resumed.{Resumes, resumed_later}
use evi.ScheduledTask.Served.{Calls, Command, serve, serve-Calls}
use evi.Examples.Series.{sao_paulo, at_nine}

abbrev wording : Wording
wording = record {
  strip = λ s. s;
  lower = λ s. s;
  digits = λ s. none;
  title_of = λ s. s;
  cut = λ s. s;
}

abbrev env : Env
env = record {
  enabled = true;
  init_ok = true;
  list_ok = true;
  write_ok = true;
  read_ok = true;
  zone = sao_paulo;
  now = at_nine 40;
  db_now = 0;
}

abbrev paused_task : Task
paused_task = record {
  id = 1;
  title = "notas";
  prompt = "minhas notas?";
  next_at = at_nine 30;
  repeat = some Repeat.daily;
  active = false;
  created_at = 0;
  last_run_at = none;
  last_status = none;
  runs_day = none;
  runs_today = 0;
  deleted_at = none;
}

abbrev table : Tasks
table = record { rows = paused_task ∷ []; next_id = 2 }

resumes : (resume wording env "notas" table).1 ≡ true
unfolding resume find find_in list_scheduled_tasks set_scheduled_task_active next_occurrence instant
    to_local
resumes = refl

resumed_later_example :
    Resumes env (find wording env "notas" table) table (resume wording env "notas" table).0
resumed_later_example = resumed_later wording env "notas" table (tt, tt) resumes

abbrev cancels : Command
cancels = Command.cancelling wording env "notas"

serve-Calls_example : Calls cancels table (serve cancels table)
serve-Calls_example = serve-Calls cancels table
