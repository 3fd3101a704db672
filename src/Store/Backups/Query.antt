-- ===== src/Store/Backups/Query.antt =====
-- The query of `EnqueueDueBackups` (internal/store/backup_schedules.go): what its order and its limit
-- leave.
use wpx.Prelude.{
  ℕ, zero, suc, ◌≤◌, Bool, false, ◌≡◌, ◌&&◌, ◌||◌, List, [], ◌∷◌, refl, ap, inl, inr, ◌∙◌,
  Bool-cases, arith,
}
use wpx.Prelude.Table
use wpx.Text.{length}
use wpx.Store.Backups.{BackupSchedule, place_in, by_next_run, limit}

-- Tests of rows through the steps of the query.
module _ (p : BackupSchedule → Bool) where
  any-place_in :
      (s : BackupSchedule) (rows : List BackupSchedule)
      → Table.any p (place_in s rows) ≡ p s || Table.any p rows
  unfolding Table.any place_in
  any-place_in s [] = refl
  any-place_in s (t ∷ rows) = ground (arith, any-place_in s rows)

  pub any-by_next_run :
      (rows : List BackupSchedule) → Table.any p (by_next_run rows) ≡ Table.any p rows
  unfolding Table.any by_next_run
  any-by_next_run [] = refl
  any-by_next_run (s ∷ rows) =
      any-place_in s (by_next_run rows) ∙ ap (λ b. p s || b) (any-by_next_run rows)

  any-select :
      (q : BackupSchedule → Bool) (rows : List BackupSchedule)
      → Table.any p (Table.select q rows) ≡ Table.any (λ r. q r && p r) rows
  unfolding Table.any Table.select
  any-select q [] = refl
  any-select q (s ∷ rows) = ground (arith, any-select q rows)

  pub any-select_ne :
      (q : BackupSchedule → Bool) (rows : List BackupSchedule)
      → Table.any p rows ≡ false
      → Table.any p (Table.select q rows) ≡ false
  unfolding Table.any Table.select
  any-select_ne q [] h = refl
  any-select_ne q (s ∷ rows) h =
      let rest : Table.any p rows ≡ false = ground (arith, h) in
      ground (arith, h, any-select_ne q rows rest)

length-place_in :
    (s : BackupSchedule) (rows : List BackupSchedule) → length (place_in s rows) ≡ suc (length rows)
unfolding place_in
length-place_in s [] = refl
length-place_in s (t ∷ rows) = ground (arith, length-place_in s rows)

pub length-due :
    (q : BackupSchedule → Bool) (rows : List BackupSchedule)
    → length (by_next_run (Table.select q rows)) ≡ Table.count q rows
unfolding by_next_run Table.select Table.count
length-due q [] = refl
length-due q (s ∷ rows) = elim (Bool-cases (q s)) [
  | inl e ↦
      let longer = length-place_in s (by_next_run (Table.select q rows)) in
      let later = length-due q rows in rw e (omega (arith, longer, later))
  | inr e ↦ let later = length-due q rows in rw e (omega (arith, later))
]

pub limit_all : (n : ℕ) (rows : List BackupSchedule) → length rows ≤ n → limit n rows ≡ rows
unfolding limit
limit_all zero [] h = refl
limit_all zero (s ∷ rows) h = ground arith
limit_all (suc n) [] h = refl
limit_all (suc n) (s ∷ rows) h = ap (λ xs. s ∷ xs) (limit_all n rows (omega arith))

pub select-none :
    (q : BackupSchedule → Bool) (rows : List BackupSchedule)
    → Table.any q rows ≡ false
    → Table.select q rows ≡ []
unfolding Table.any Table.select
select-none q [] h = refl
select-none q (s ∷ rows) h =
    let one : q s ≡ false = ground (arith, h) in
    let others : Table.any q rows ≡ false = ground (arith, h) in rw one (select-none q rows others)
