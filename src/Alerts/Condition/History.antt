-- ===== src/Alerts/Condition/History.antt =====
-- A condition over a series of samples (internal/alerts/monitor.go).
use mathlib.Core.Path.{subst}
use wpx.Prelude.{
  ℕ, suc, ◌+◌, ◌*◌, ◌^◌, ◌<◌, ◌≤◌, Bool, true, false, ◌≡◌, Option, some, none, List, [], ◌∷◌, leb,
  ltb, refl, sym, ap, ◌∙◌, arith, if◌then◌else◌,
}
use wpx.Text.{Text, codes, cut, ◌=ᵗ◌, length}
use wpx.Text.Search.{has_prefix}
use wpx.Stamp.{Stamp}
use wpx.Alerts.Cycle.{parse_uint, next_condition_cycle}
use wpx.Alerts.Cycle.RoundTrip.{parse_uint-format_uint}
use wpx.Alerts.State.{AlertState}
use wpx.Alerts.Condition.{sampled}
use wpx.Alerts.Condition.Phases.{Phase, never, opened, resolved_in, identity_of, next, cycle_of}

some_eq : {x y : Text} → some x ≡ some y → x ≡ y
some_eq e = cc

-- Whether the condition was bad, and when.
pub record Sample : Type 0 where
  pub bad : Bool
  pub now : Stamp

-- The place of an identity in the course of a condition: open before resolved, cycle after cycle.
abbrev or_zero : Option ℕ → ℕ
or_zero none = 0
or_zero (some n) = n

unfoldable pub place : Text → ℕ
unfolding cut parse_uint ◌=ᵗ◌
place identity =
    let (kind, cycle, found) = cut b':' identity in
    if kind =ᵗ codes "open"
    then 2 * or_zero (parse_uint cycle) + 1
    else if kind =ᵗ codes "resolved"
    then 2 * or_zero (parse_uint cycle) + 2
    else 0

abbrev pub place_of : Phase → ℕ
place_of never = 0
place_of (opened n) = 2 * n + 1
place_of (resolved_in n) = 2 * n + 2

pub place-identity_of : (p : Phase) → cycle_of p < 2 ^ 64 → place (identity_of p) ≡ place_of p
unfolding place cut ◌=ᵗ◌
place-identity_of never small = refl
place-identity_of (opened n) small = rw (parse_uint-format_uint n small) refl
place-identity_of (resolved_in n) small = rw (parse_uint-format_uint n small) refl

place-next : (p : Phase) → (place_of p ≤ place_of (next p)) × (cycle_of (next p) ≤ suc (cycle_of p))
place-next never = (omega arith, omega arith)
place-next (opened n) = (omega arith, omega arith)
place-next (resolved_in n) = (omega arith, omega arith)

abbrev with_said : Option Text → List Text → List Text
with_said none later = later
with_said (some identity) later = identity ∷ later

-- From that place on, never back.
abbrev pub InOrder : ℕ → List Text → Type 0
InOrder from [] = Unit {0}
InOrder from (identity ∷ later) = (from ≤ place identity) × InOrder (place identity) later

pub place-moved :
    (p : Phase) (is_moved : Bool)
    → (place_of p ≤ place_of (if is_moved then next p else p))
      × (cycle_of (if is_moved then next p else p) ≤ suc (cycle_of p))
place-moved p true = place-next p
place-moved p false = (omega arith, omega arith)

module _ (trigger cooldown : ℕ) where
  unfoldable pub after_samples : List Sample → AlertState → AlertState
  unfolding sampled
  after_samples [] state = state
  after_samples (sample ∷ samples) state =
      after_samples samples (sampled sample.bad trigger cooldown sample.now state).0

  -- The identities that are said, in their order, where each sample finds the row that the one
  -- before has left: no load or save fails.
  unfoldable pub said_over : List Sample → AlertState → List Text
  unfolding sampled
  said_over [] state = []
  said_over (sample ∷ samples) state =
      let (after, said) = sampled sample.bad trigger cooldown sample.now state in
      with_said said (said_over samples after)

abbrev pub bad_at : Stamp → Sample
bad_at now = record { bad = true; now = now }

abbrev pub all_bad : List Stamp → List Sample
all_bad [] = []
all_bad (now ∷ times) = bad_at now ∷ all_bad times

-- A condition that has never been reported, with so many bad samples so far.
abbrev pub counting : Text → ℕ → ℕ → AlertState
counting key bad_samples good_samples = record {
  key = key;
  last_fingerprint = [];
  active = false;
  bad_samples = bad_samples;
  good_samples = good_samples;
  last_sent_at = none;
}

module _ (trigger cooldown : ℕ) (key : Text) where
  bad_sample-counting :
      (b g : ℕ) (now : Stamp)
      → suc b < trigger
      → sampled true trigger cooldown now (counting key b g) ≡ (counting key (suc b) 0, none)
  unfolding sampled
  bad_sample-counting b g now below =
      let e : ltb b trigger ≡ true = ground arith in
      let f : leb trigger (suc b) ≡ false = ground arith in rw e (rw f refl)

  counted :
      (times : List Stamp) (b g : ℕ)
      → b + length times < trigger
      → (h : ℕ) × (after_samples trigger cooldown (all_bad times) (counting key b g)
          ≡ counting key (b + length times) h)
        × (said_over trigger cooldown (all_bad times) (counting key b g) ≡ [])
  unfolding after_samples said_over
  counted [] b g below =
      let whole : b ≡ b + 0 = omega arith in (g, ap (λ n. counting key n g) whole, refl)
  counted (now ∷ times) b g below =
      subst
        (λ r.
          (h : ℕ) × (after_samples trigger cooldown (all_bad times) r.0
            ≡ counting key (b + suc (length times)) h)
          × (with_said r.1 (said_over trigger cooldown (all_bad times) r.0) ≡ []))
        (sym (bad_sample-counting b g now (omega arith)))
        (let (h, same, silent) = counted times (suc b) 0 (omega arith) in
          let whole : suc b + length times ≡ b + suc (length times) = omega arith in
          (h, same ∙ ap (λ n. counting key n h) whole, silent))

  bad_sample-opens :
      (b g : ℕ) (now : Stamp)
      → suc b ≡ trigger
      → (sampled true trigger cooldown now (counting key b g)).0.active ≡ true
  unfolding sampled has_prefix next_condition_cycle
  bad_sample-opens b g now e =
      let f : ltb b trigger ≡ true = ground arith in
      let t : leb trigger (suc b) ≡ true = ground arith in rw f (rw t refl)

  -- A condition that has never been reported says nothing and stays closed over one bad sample
  -- fewer than its trigger, and opens with the next bad one.
  pub said_over-trigger :
      (times : List Stamp) (now : Stamp)
      → suc (length times) ≡ trigger
      → (said_over trigger cooldown (all_bad times) (counting key 0 0) ≡ [])
        × ((after_samples trigger cooldown (all_bad times) (counting key 0 0)).active ≡ false)
        × ((sampled true trigger cooldown now
              (after_samples trigger cooldown (all_bad times) (counting key 0 0))).0.active
            ≡ true)
  said_over-trigger times now e =
      let (h, same, silent) = counted times 0 0 (omega arith) in
      (silent, rw same refl, rw same (bad_sample-opens (0 + length times) h now (omega arith)))
