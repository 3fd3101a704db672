-- ===== src/Alerts/Condition/Phases.antt =====
-- The phases of a condition of internal/alerts/monitor.go: never reported, open in a cycle, resolved
-- in a cycle.
use mathlib.Core.Path.{subst}
use wpx.Prelude.{
  ℕ, suc, ◌+◌, ◌^◌, ◌%◌, ◌<◌, ◌≤◌, Bool, true, false, not, ◌≡◌, ◌&&◌, Option, some, none, [], ◌++◌,
  leb, ltb, refl, sym, inl, inr, ◌⊎◌, Bool-cases, arith, if◌then◌else◌,
}
use wpx.Text.{Text, codes, cut, ◌=ᵗ◌}
use wpx.Text.Search.{has_prefix}
use wpx.Stamp.{Stamp}
use wpx.Alerts.Cycle.{format_uint, condition_cycle, next_condition_cycle}
use wpx.Alerts.Cycle.RoundTrip.{parse_uint-format_uint}
use wpx.Alerts.State.{AlertState}
use wpx.Alerts.Monitor.{is_over}
use wpx.Alerts.Condition.{Said, sampled}

pub data Phase : Type 0 where
  never : Phase
  opened resolved_in : ℕ → Phase

-- The identity of what is said in a phase.
abbrev pub identity_of : Phase → Text
identity_of never = []
identity_of (opened n) = codes "open:" ++ format_uint n
identity_of (resolved_in n) = codes "resolved:" ++ format_uint n

abbrev pub is_open : Phase → Bool
is_open (opened n) = true
is_open _ = false

abbrev pub next : Phase → Phase
next never = opened 1
next (opened n) = resolved_in n
next (resolved_in n) = opened (suc n)

abbrev pub cycle_of : Phase → ℕ
cycle_of never = 0
cycle_of (opened n) = n
cycle_of (resolved_in n) = n

-- The state of a condition in a phase.
pub record InPhase (p : Phase) (state : AlertState) : Type 0 where
  pub identity : state.last_fingerprint ≡ identity_of p
  pub active : state.active ≡ is_open p
  pub good : state.good_samples ≤ 1

-- A sample moves a condition on.
abbrev pub moves : Bool → ℕ → ℕ → Stamp → AlertState → Bool
moves bad trigger cooldown now state =
    if bad
    then not state.active
      && leb trigger (suc state.bad_samples)
      && is_over cooldown state.last_sent_at now
    else state.active && leb 1 state.good_samples

resolved_cycle :
    (n : ℕ)
    → suc n < 2 ^ 64
    → next_condition_cycle (identity_of (resolved_in n)) ≡ format_uint (suc n)
unfolding next_condition_cycle condition_cycle cut ◌=ᵗ◌
resolved_cycle n small =
    let same : condition_cycle (identity_of (resolved_in n)) ≡ format_uint n =
      rw (parse_uint-format_uint n (omega arith)) refl in
    let whole : (n + 1) % 2 ^ 64 ≡ suc n = omega arith in
    rw same (rw (parse_uint-format_uint n (omega arith)) (rw whole refl))

same_cycle : (n : ℕ) → n < 2 ^ 64 → condition_cycle (identity_of (opened n)) ≡ format_uint n
unfolding condition_cycle cut
same_cycle n small = rw (parse_uint-format_uint n small) refl

first_cycle : next_condition_cycle (identity_of never) ≡ format_uint 1
unfolding next_condition_cycle format_uint ◌=ᵗ◌
first_cycle = refl

-- What has been said fits the phase that the condition is in.
pub record Goes (q : Phase) (said : Said) : Type 0 where
  pub phase : InPhase q said.0
  pub identity : (said.1 ≡ none) ⊎ (said.1 ≡ some (identity_of q))

abbrev phase_state : Text → Phase → ℕ → ℕ → Option Stamp → AlertState
phase_state key p bad_samples good_samples last_sent_at = record {
  key = key;
  last_fingerprint = identity_of p;
  active = is_open p;
  bad_samples = bad_samples;
  good_samples = good_samples;
  last_sent_at = last_sent_at;
}

reached :
    (trigger bad_samples : ℕ)
    → leb trigger (if ltb bad_samples trigger then suc bad_samples else bad_samples)
      ≡ leb trigger (suc bad_samples)
reached trigger bad_samples = ground arith

module _ (trigger cooldown : ℕ) (now : Stamp) (key : Text) (b : ℕ) where
  silent : (p : Phase) (n g : ℕ) (t : Option Stamp) → g ≤ 1 → Goes p (phase_state key p n g t, none)
  silent p n g t low = record {
    phase = record { identity = refl; active = refl; good = low };
    identity = inl refl;
  }

  spoken :
      (p : Phase) (n g : ℕ) (t : Option Stamp)
      → g ≤ 1
      → Goes p (phase_state key p n g t, some (identity_of p))
  spoken p n g t low = record {
    phase = record { identity = refl; active = refl; good = low };
    identity = inr refl;
  }

  abbrev after : Bool → Phase → ℕ → Option Stamp → Said
  after bad p g t = sampled bad trigger cooldown now (phase_state key p b g t)

  abbrev phase_after : Bool → Phase → ℕ → Option Stamp → Phase
  phase_after bad p g t =
      if moves bad trigger cooldown now (phase_state key p b g t) then next p else p

  bad_sample-Goes :
      (p : Phase) (g : ℕ) (t : Option Stamp)
      → suc (cycle_of p) < 2 ^ 64
      → Goes (phase_after true p g t) (after true p g t)
  unfolding sampled has_prefix
  bad_sample-Goes (opened n) g t small = elim (Bool-cases (leb trigger (suc b))) [
    | inr e ↦ rw (reached trigger b) (rw e (silent (opened n) _ 0 t (omega arith)))
    | inl e ↦ rw (reached trigger b) (rw e (spoken (opened n) _ 0 t (omega arith)))
  ]
  bad_sample-Goes never g t small = elim (Bool-cases (leb trigger (suc b))) [
    | inr e ↦ rw (reached trigger b) (rw e (silent never _ 0 t (omega arith)))
    | inl e ↦ elim (Bool-cases (is_over cooldown t now)) [
      | inr o ↦ rw (reached trigger b) (rw e (rw o (silent never _ 0 t (omega arith))))
      | inl o ↦
          rw (reached trigger b)
            (rw e (rw o (rw first_cycle (spoken (opened 1) _ 0 (some now) (omega arith)))))
    ]
  ]
  bad_sample-Goes (resolved_in n) g t small = elim (Bool-cases (leb trigger (suc b))) [
    | inr e ↦ rw (reached trigger b) (rw e (silent (resolved_in n) _ 0 t (omega arith)))
    | inl e ↦ elim (Bool-cases (is_over cooldown t now)) [
      | inr o ↦ rw (reached trigger b) (rw e (rw o (silent (resolved_in n) _ 0 t (omega arith))))
      | inl o ↦ rw (reached trigger b) (
          rw e (
            rw o
              (rw (resolved_cycle n small) (spoken (opened (suc n)) _ 0 (some now) (omega arith)))))
    ]
  ]

  good_sample-Goes :
      (p : Phase) (g : ℕ) (t : Option Stamp)
      → suc (cycle_of p) < 2 ^ 64
      → g ≤ 1
      → Goes (phase_after false p g t) (after false p g t)
  unfolding sampled has_prefix
  good_sample-Goes never g t small low = silent never 0 0 t (omega arith)
  good_sample-Goes (resolved_in n) g t small low = spoken (resolved_in n) 0 0 t (omega arith)
  good_sample-Goes (opened n) g t small low = elim (Bool-cases (leb 1 g)) [
    | inr e ↦
        let e2 : leb 2 (suc g) ≡ false = ground arith in
        let none_yet : suc g ≤ 1 = ground arith in
        rw e (rw e2 (silent (opened n) 0 (suc g) t none_yet))
    | inl e ↦
        let e2 : leb 2 (suc g) ≡ true = ground arith in
        rw e (
          rw e2
            (rw (same_cycle n (omega arith)) (spoken (resolved_in n) 0 0 (some now) (omega arith))))
  ]

pub sampled-Goes :
    (bad : Bool) (trigger cooldown : ℕ) (now : Stamp) (p : Phase) (state : AlertState)
    → InPhase p state
    → suc (cycle_of p) < 2 ^ 64
    → Goes
        (if moves bad trigger cooldown now state then next p else p)
        (sampled bad trigger cooldown now state)
sampled-Goes bad trigger cooldown now p state i small =
    subst
      (λ x.
        Goes (if moves bad trigger cooldown now x then next p else p)
          (sampled bad trigger cooldown now x))
      (sym same) (by_sample bad)
  where
    same : state ≡ phase_state state.key p state.bad_samples state.good_samples state.last_sent_at
    same = λ k. record {
      key = state.key;
      last_fingerprint = i.identity k;
      active = i.active k;
      bad_samples = state.bad_samples;
      good_samples = state.good_samples;
      last_sent_at = state.last_sent_at;
    }

    by_sample :
        (x : Bool)
        → Goes
            (phase_after trigger cooldown now state.key state.bad_samples x p state.good_samples
              state.last_sent_at)
            (after trigger cooldown now state.key state.bad_samples x p state.good_samples
              state.last_sent_at)
    by_sample true =
        bad_sample-Goes trigger cooldown now state.key state.bad_samples p state.good_samples
          state.last_sent_at small
    by_sample false =
        good_sample-Goes trigger cooldown now state.key state.bad_samples p state.good_samples
          state.last_sent_at small i.good
