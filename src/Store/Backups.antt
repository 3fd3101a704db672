-- ===== src/Store/Backups.antt =====
-- `EnqueueDueBackups` of internal/store/backup_schedules.go: the schedules of backups, and the jobs
-- that they have enqueued. Of sites and targets only the active ones count.
pub mod Query
pub mod Caught
pub mod Unique
use wpx.Prelude.{
  ℕ, zero, suc, ◌+◌, ◌*◌, ◌^◌, String, Bool, true, false, not, ◌&&◌, ◌||◌, ◌=?◌, ◌==◌, List, [],
  ◌∷◌, if◌then◌else◌,
}
use wpx.Prelude.Table
use wpx.Text.{length}
use wpx.Stamp.{Stamp, add, sorts_before}

-- `BackupRetention`
pub record BackupRetention : Type 0 where
  pub keep_daily : ℕ
  pub keep_weekly : ℕ
  pub keep_monthly : ℕ

-- A row of backup_schedules, as far as this operation reads it.
pub record BackupSchedule : Type 0 where
  pub id : String
  pub site_id : String
  pub target_id : String
  pub interval_hours : ℕ
  pub next_run : Stamp
  pub enabled : Bool
  pub retention : BackupRetention
  pub updated_at : Stamp

-- A job of the kind site.backup; its idempotency key is made of the schedule and the run.
pub record BackupJob : Type 0 where
  pub id : String
  pub site_id : String
  pub target_id : String
  pub retention : BackupRetention
  pub schedule_id : String
  pub scheduled_for : Stamp
  pub created_at : Stamp

pub record BackupQueue : Type 0 where
  pub active_sites : List String
  pub active_targets : List String
  pub schedules : List BackupSchedule
  pub jobs : List BackupJob

abbrev pub same_stamp : Stamp → Stamp → Bool
same_stamp a b = a.second == b.second && a.nano == b.nano

-- WHERE s.enabled=1 AND s.next_run<=?, with the site and the target active
unfoldable pub is_due : Stamp → List String → List String → BackupSchedule → Bool
unfolding Table.any sorts_before
is_due now active_sites active_targets s =
    s.enabled
    && not (sorts_before now s.next_run)
    && Table.any (λ (id : String). id =? s.site_id) active_sites
    && Table.any (λ (id : String). id =? s.target_id) active_targets

-- ORDER BY next_run
unfoldable pub place_in : BackupSchedule → List BackupSchedule → List BackupSchedule
unfolding sorts_before
place_in s [] = s ∷ []
place_in s (t ∷ sorted) =
    let rest = place_in s sorted in
    if sorts_before t.next_run s.next_run then t ∷ rest else s ∷ t ∷ sorted

unfoldable pub by_next_run : List BackupSchedule → List BackupSchedule
unfolding place_in
by_next_run [] = []
by_next_run (s ∷ rows) = place_in s (by_next_run rows)

-- LIMIT
unfoldable pub limit : ℕ → List BackupSchedule → List BackupSchedule
limit zero rows = []
limit (suc n) [] = []
limit (suc n) (s ∷ rows) = s ∷ limit n rows

unfoldable pub due_schedules : Stamp → BackupQueue → List BackupSchedule
unfolding is_due by_next_run limit Table.select
due_schedules now queue = limit 100 (
    by_next_run (Table.select (is_due now queue.active_sites queue.active_targets) queue.schedules))

abbrev pub same_run : BackupJob → BackupJob → Bool
same_run a b = a.schedule_id =? b.schedule_id && same_stamp a.scheduled_for b.scheduled_for

-- INSERT OR IGNORE INTO jobs: neither the identifier nor the key may be there.
abbrev pub insert_or_ignore : BackupJob → List BackupJob → List BackupJob
insert_or_ignore job jobs =
    if Table.any (λ (j : BackupJob). j.id =? job.id || same_run j job) jobs
    then jobs
    else Table.insert job jobs

abbrev pub job_of : Stamp → String → BackupSchedule → BackupJob
job_of now id s = record {
  id = id;
  site_id = s.site_id;
  target_id = s.target_id;
  retention = s.retention;
  schedule_id = s.id;
  scheduled_for = s.next_run;
  created_at = now;
}

abbrev pub run_of : BackupSchedule → BackupSchedule → Bool
run_of s r = r.id =? s.id && same_stamp r.next_run s.next_run

abbrev pub moved_on : Stamp → ℕ → BackupSchedule → BackupSchedule
moved_on now hours r = record r { next_run = add now (hours * (3600 * 10 ^ 9)); updated_at = now }

-- UPDATE backup_schedules SET next_run=?,updated_at=? WHERE id=? AND next_run=?
abbrev pub advance : Stamp → BackupSchedule → List BackupSchedule → List BackupSchedule
advance now s rows = Table.update (run_of s) (moved_on now s.interval_hours) rows

abbrev pub enqueue_one : Stamp → String → BackupSchedule → BackupQueue → BackupQueue
enqueue_one now id s queue = record queue {
  schedules = advance now s queue.schedules;
  jobs = insert_or_ignore (job_of now id s) queue.jobs;
}

-- The loop over the schedules; `draw` gives each of them the identifier of its job.
unfoldable pub enqueue_each :
    Stamp → (ℕ → String) → ℕ → List BackupSchedule → BackupQueue → BackupQueue
unfolding Table.any Table.insert Table.update add
enqueue_each now draw n [] queue = queue
enqueue_each now draw n (s ∷ due) queue =
    enqueue_each now draw (suc n) due (enqueue_one now (draw n) s queue)

-- `EnqueueDueBackups`
unfoldable pub enqueue_due_backups : Stamp → (ℕ → String) → BackupQueue → ℕ × BackupQueue
unfolding due_schedules enqueue_each
enqueue_due_backups now draw queue =
    let due = due_schedules now queue in (length due, enqueue_each now draw 0 due queue)
