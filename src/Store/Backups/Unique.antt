-- ===== src/Store/Backups/Unique.antt =====
-- The keys of the jobs of `EnqueueDueBackups` (internal/store/backup_schedules.go).
use wpx.Prelude.{ℕ, ◌<◌, ◌≤◌, String, Bool, false, ◌≡◌, ◌&&◌, ◌=?◌, List}
use wpx.Prelude.Table
use wpx.Stamp.{Stamp}
use wpx.Store.Backups.{BackupSchedule, BackupJob, same_run, same_stamp}

-- Each run has one job at most.
abbrev pub IsUnique : List BackupJob → Type 0
IsUnique jobs = (job : BackupJob) → Table.count (λ (j : BackupJob). same_run j job) jobs ≤ 1

-- No job has an identifier that is drawn from one number on and before another.
abbrev pub Unused : (ℕ → String) → ℕ → ℕ → List BackupJob → Type 0
Unused draw n k jobs =
    (m : ℕ) → n ≤ m → m < k → Table.any (λ (j : BackupJob). j.id =? draw m) jobs ≡ false

-- The identifiers that are drawn before that number differ.
abbrev pub Differ : (ℕ → String) → ℕ → Type 0
Differ draw k = (a b : ℕ) → a < b → b < k → (draw a =? draw b) ≡ false

-- A job of the run of the schedule.
abbrev pub is_for : BackupSchedule → BackupJob → Bool
is_for s j = j.schedule_id =? s.id && same_stamp j.scheduled_for s.next_run
