-- ===== src/Tests/Backups.antt =====
-- Runs of the backup schedules.
use wpx.Prelude.{ℕ, zero, suc, ◌≤◌, ◌≡◌, refl, true, false, [], ◌∷◌, arith, String}
use wpx.Prelude.Table
use wpx.Store.Backups.{BackupSchedule, BackupQueue, is_due, job_of, enqueue_due_backups}
use wpx.Store.Backups.Caught.{some_due, enqueue_due_backups_twice}
use wpx.Tests.Data.{second, site_id}

abbrev schedule : String → ℕ → BackupSchedule
schedule id next_run = record {
  id = id;
  site_id = site_id;
  target_id = "target";
  interval_hours = 6;
  next_run = second next_run;
  enabled = true;
  retention = record { keep_daily = 7; keep_weekly = 0; keep_monthly = 0 };
  updated_at = second 1;
}

abbrev queue : BackupQueue
queue = record {
  active_sites = site_id ∷ [];
  active_targets = "target" ∷ [];
  schedules = schedule "s1" 500 ∷ schedule "s2" 90000 ∷ schedule "s3" 400 ∷ [];
  jobs = [];
}

abbrev draw : ℕ → String
draw zero = "j1"
draw (suc n) = "j2"

-- The two schedules that are due are enqueued, the earlier first, and run again six hours later.
enqueued :
    (enqueue_due_backups (second 600) draw queue).1.jobs
    ≡ job_of (second 600) "j1" (schedule "s3" 400)
      ∷ job_of (second 600) "j2" (schedule "s1" 500)
      ∷ []
unfolding enqueue_due_backups
enqueued = refl

few_due :
    Table.count (is_due (second 600) queue.active_sites queue.active_targets) queue.schedules ≤ 100
unfolding is_due Table.count
few_due = omega arith

enqueue_due_backups_twice_example :
    (some_due (second 600) (enqueue_due_backups (second 600) draw queue).1 ≡ false)
    × (enqueue_due_backups (second 600) draw (enqueue_due_backups (second 600) draw queue).1
        ≡ (0, (enqueue_due_backups (second 600) draw queue).1))
unfolding Table.any
enqueue_due_backups_twice_example =
    enqueue_due_backups_twice (second 600) draw draw queue (omega arith) refl few_due
