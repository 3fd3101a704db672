-- ===== src/Provision/Attempt.antt =====
-- Programs of internal/provision that act on the host: a sequence of attempts, each of which may
-- succeed, return an error or be cut short by the end of the process, and may have taken effect in
-- any of these cases. The host answers from a list; where the list ends the process ends.
use wpx.Prelude.{◌≡◌, refl, Bool, true, false, List, [], ◌∷◌, if◌then◌else◌}
use wpx.Text.{Text}

pub data Ending : Type 0 where
  succeeds fails ends_process : Ending

-- `took_effect` says what an attempt that did not succeed has left; `database` is what a command
-- upon a database leaves in it, `remaining` whether what was told to stop still runs, and `leaves`
-- the paths that a removal of a tree, if it did not succeed, has not reached.
pub record Answer : Type 0 where
  pub ending : Ending
  pub took_effect : Bool
  pub database : Text
  pub remaining : Bool
  pub leaves : Text → Bool

-- What a run comes to: the process has ended, or the program has returned with answers to spare.
pub data Run (W : Type 0) (R : Type 0) : Type 0 where
  stopped : W → Run W R
  returned : R → W → List Answer → Run W R

abbrev pub Program : Type 0 → Type 0 → Type 0
Program W R = W → List Answer → Run W R

module _ {W R : Type 0} where
  abbrev pub give_back : R → Program W R
  give_back r w answers = returned r w answers

  -- if err := …; err != nil { on_failure }; next
  abbrev pub attempt : (Answer → W → W) → Program W R → Program W R → Program W R
  attempt effect on_failure next w [] = stopped w
  attempt effect on_failure next w (a ∷ answers) = elim a.ending [
    | succeeds ↦ next (effect a w) answers
    | fails ↦ on_failure (if a.took_effect then effect a w else w) answers
    | ends_process ↦ stopped (if a.took_effect then effect a w else w)
  ]

  -- A call that only reads the host.
  abbrev pub inspects : Program W R → Program W R → Program W R
  inspects on_failure next = attempt (λ a w. w) on_failure next

  -- The program has returned or been stopped, in a state that fits.
  abbrev pub Holds : (W → Type 0) → (R → W → Type 0) → Run W R → Type 0
  Holds S Q (stopped w) = S w
  Holds S Q (returned r w answers) = Q r w

  -- The rule of an attempt.
  pub attempt-Holds_succeeds :
      (S : W → Type 0) (Q : R → W → Type 0) (effect : Answer → W → W)
      (on_failure next : Program W R) (w : W) (answers : List Answer)
      → S w
      → ((a : Answer) → S (effect a w))
      → ((rest : List Answer) → Holds S Q (on_failure w rest))
      → ((a : Answer) (rest : List Answer) → Holds S Q (on_failure (effect a w) rest))
      → ((a : Answer)
          → a.ending ≡ succeeds
          → (rest : List Answer) → Holds S Q (next (effect a w) rest))
      → Holds S Q (attempt effect on_failure next w answers)
  attempt-Holds_succeeds S Q effect on_failure next w [] s se f fe n = s
  attempt-Holds_succeeds S Q effect on_failure next w (a ∷ rest) s se f fe n =
      by_answer a.ending a.took_effect refl
    where
      by_answer :
          (e : Ending) (t : Bool)
          → a.ending ≡ e
          → Holds S Q (elim e [
            | succeeds ↦ next (effect a w) rest
            | fails ↦ on_failure (if t then effect a w else w) rest
            | ends_process ↦ stopped (if t then effect a w else w)
          ])
      by_answer succeeds t same = n a same rest
      by_answer fails true same = fe a rest
      by_answer fails false same = f rest
      by_answer ends_process true same = se a
      by_answer ends_process false same = s

  -- The rule where the effect does not look at the ending.
  pub attempt-Holds :
      (S : W → Type 0) (Q : R → W → Type 0) (effect : Answer → W → W)
      (on_failure next : Program W R) (w : W) (answers : List Answer)
      → S w
      → ((a : Answer) → S (effect a w))
      → ((rest : List Answer) → Holds S Q (on_failure w rest))
      → ((a : Answer) (rest : List Answer) → Holds S Q (on_failure (effect a w) rest))
      → ((a : Answer) (rest : List Answer) → Holds S Q (next (effect a w) rest))
      → Holds S Q (attempt effect on_failure next w answers)
  attempt-Holds S Q effect on_failure next w answers s se f fe n =
      attempt-Holds_succeeds S Q effect on_failure next w answers s se f fe (λ a _. n a)

  -- The rule of a call that only reads.
  pub inspects-Holds :
      (S : W → Type 0) (Q : R → W → Type 0) (on_failure next : Program W R) (w : W)
      (answers : List Answer)
      → S w
      → ((rest : List Answer) → Holds S Q (on_failure w rest))
      → ((rest : List Answer) → Holds S Q (next w rest))
      → Holds S Q (inspects on_failure next w answers)
  inspects-Holds S Q on_failure next w answers s f n =
      attempt-Holds S Q (λ a w. w) on_failure next w answers s (λ a. s) f (λ a. f) (λ a. n)
