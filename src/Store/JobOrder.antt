-- ===== src/Store/JobOrder.antt =====
-- `ORDER BY created_at,id` over jobs, as the queries of internal/store write it.
pub mod Least
use wpx.Prelude.{
  Bool, true, false, not, ◌&&◌, ◌||◌, Option, none, some, List, [], ◌∷◌, ◌==◌, if◌then◌else◌, ◌≡◌,
  arith, refl,
}
use wpx.Text.{Text, codes}
use wpx.Stamp.{Stamp, sorts_before, text_lt}
use wpx.Store.Rows.{Job}

unfoldable pub job_before : Job → Job → Bool
job_before a b =
    sorts_before a.created_at b.created_at
    || (not (sorts_before b.created_at a.created_at) && text_lt (codes a.id) (codes b.id))

abbrev pub keep_first : Job → Option Job → Job
keep_first j none = j
keep_first j (some k) = if job_before k j then k else j

-- ORDER BY created_at,id LIMIT 1, of the jobs that meet a test
unfoldable pub earliest : (Job → Bool) → List Job → Option Job
earliest p [] = none
earliest p (j ∷ js) = let rest = earliest p js in if p j then some (keep_first j rest) else rest

abbrev pub keep_last : Job → Option Job → Job
keep_last j none = j
keep_last j (some k) = if job_before j k then k else j

-- ORDER BY created_at DESC,id DESC LIMIT 1
unfoldable pub latest : (Job → Bool) → List Job → Option Job
latest p [] = none
latest p (j ∷ js) = let rest = latest p js in if p j then some (keep_last j rest) else rest
