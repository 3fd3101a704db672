-- ===== src/Store/JobOrder/Least.antt =====
-- Facts about the order of jobs and the query for the first one.
use wpx.Prelude.{
  Bool, true, false, ◌||◌, ◌&&◌, ◌≡◌, none, some, List, [], ◌∷◌, arith, refl, inl, inr,
  Option-cases,
}
use wpx.Prelude.Table
use wpx.Text.{codes}
use wpx.Stamp.Weak.{text_lt_weak, text_lt_asym, sorts_before_weak, sorts_before_asym}
use wpx.Store.Rows.{Job}
use wpx.Store.JobOrder.{job_before, earliest}

pub job_before_weak :
    (a b c : Job) → job_before a c ≡ true → (job_before a b || job_before b c) ≡ true
unfolding job_before
job_before_weak a b c h = ground (
  arith,
  sorts_before_weak a.created_at b.created_at c.created_at,
  sorts_before_weak b.created_at a.created_at c.created_at,
  sorts_before_weak b.created_at c.created_at a.created_at,
  sorts_before_weak c.created_at a.created_at b.created_at,
  sorts_before_weak c.created_at b.created_at a.created_at,
  text_lt_weak (codes a.id) (codes b.id) (codes c.id),
)

pub job_before_irrefl : (a : Job) → job_before a a ≡ false
unfolding job_before
job_before_irrefl a =
    ground
      (arith, sorts_before_asym a.created_at a.created_at, text_lt_asym (codes a.id) (codes a.id))

pub job_before_asym : (a b : Job) → job_before a b ≡ true → job_before b a ≡ false
unfolding job_before
job_before_asym a b h =
    ground
      (arith, sorts_before_asym a.created_at b.created_at, text_lt_asym (codes a.id) (codes b.id))

-- The job returned meets the test.
pub earliest-holds :
    (p : Job → Bool) (js : List Job) (j : Job) → earliest p js ≡ some j → p j ≡ true
unfolding earliest
earliest-holds p [] j h = ground arith
earliest-holds p (x ∷ xs) j h = elim (Option-cases (earliest p xs)) [
  | inl e ↦ ground arith
  | inr (k, e) ↦ ground (arith, earliest-holds p xs k e)
]

-- It is one of the rows.
pub earliest-meets :
    (p q : Job → Bool) (js : List Job) (j : Job)
    → earliest p js ≡ some j
    → q j ≡ true
    → Table.any q js ≡ true
unfolding earliest Table.any
earliest-meets p q [] j h k = ground arith
earliest-meets p q (x ∷ xs) j h k = elim (Option-cases (earliest p xs)) [
  | inl e ↦ ground arith
  | inr (i, e) ↦ ground (arith, earliest-meets p q xs i e)
]

pub earliest-none : (p : Job → Bool) (js : List Job) → earliest p js ≡ none → Table.any p js ≡ false
unfolding earliest Table.any
earliest-none p [] h = refl
earliest-none p (x ∷ xs) h = ground (arith, earliest-none p xs)

abbrev pub goes_before : (Job → Bool) → Job → Job → Bool
goes_before p j k = p k && job_before k j

none_before :
    (p : Job → Bool) (j : Job) (js : List Job)
    → Table.any p js ≡ false
    → Table.any (goes_before p j) js ≡ false
unfolding Table.any
none_before p j [] h = refl
none_before p j (x ∷ xs) h = ground (arith, none_before p j xs)

-- Before a job that no row of a list precedes, no row precedes one that the job itself precedes.
goes_before_mono :
    (p : Job → Bool) (j k : Job) (js : List Job)
    → Table.any (goes_before p k) js ≡ false
    → job_before k j ≡ false
    → Table.any (goes_before p j) js ≡ false
unfolding Table.any
goes_before_mono p j k [] h n = refl
goes_before_mono p j k (x ∷ xs) h n =
    ground (arith, goes_before_mono p j k xs, job_before_weak x k j)

-- No row that meets the test of an ordered query comes before the row that the query returns.
pub earliest-least :
    (p : Job → Bool) (js : List Job) (j : Job)
    → earliest p js ≡ some j
    → Table.any (goes_before p j) js ≡ false
unfolding earliest Table.any
earliest-least p [] j h = ground arith
earliest-least p (x ∷ xs) j h = elim (Option-cases (earliest p xs)) [
  | inl e ↦ ground (arith, job_before_irrefl x, earliest-none p xs e, none_before p j xs)
  | inr (k, e) ↦ ground (
    arith,
    earliest-least p xs k e,
    goes_before_mono p x k xs,
    job_before_irrefl x,
    job_before_weak x k x,
    job_before_asym k x,
  )
]
