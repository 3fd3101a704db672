-- ===== src/Alerts/Cycle/RoundTrip.antt =====
-- Writing and reading the numbers of cycles (internal/alerts/monitor.go).
use wpx.Prelude.{
  ℕ, zero, suc, ◌+◌, ◌*◌, ◌/◌, ◌%◌, ◌^◌, ◌<◌, ◌≡◌, ltb, [], ◌∷◌, some, refl, inl, inr, ◌∙◌, ap,
  Bool-cases, arith,
}
use native.Mathlib.Numerals.{unary_clauses}
use wpx.Text.{Text}
use wpx.Alerts.Cycle.{parse_from, parse_uint, digits, format_uint}

parse_from-digit :
    (value d : ℕ) (s : Text)
    → d < 10
    → value * 10 + d < 2 ^ 64
    → parse_from value ((b'0' + d) ∷ s) ≡ parse_from (value * 10 + d) s
unfolding parse_from
parse_from-digit value d s small bounded = ground arith

tenth : {n : ℕ} (m : ℕ) → n < m * 10 → n / 10 < m
tenth m h = omega arith

parse_from-digits :
    (fuel n : ℕ) (written : Text)
    → n < 10 ^ suc fuel
    → n < 2 ^ 64
    → parse_from 0 (digits (suc fuel) n written) ≡ parse_from n written
unfolding digits
parse_from-digits zero n written small bounded = ground (arith, parse_from-digit 0 n written)
parse_from-digits (suc fuel) n written small bounded = elim (Bool-cases (ltb n 10)) [
  | inl e ↦
      let below : n < 10 = ground arith in
      let whole : 0 * 10 + n ≡ n = omega arith in
      rw e (parse_from-digit 0 n written below (omega arith) ∙ ap (λ v. parse_from v written) whole)
  | inr e ↦
      let shorter : n / 10 < 10 ^ suc fuel =
        simp unary_clauses (tenth (10 ^ fuel * 10) (simp unary_clauses at small)) in
      let whole : n / 10 * 10 + n % 10 ≡ n = omega arith in
      rw e (
        parse_from-digits fuel (n / 10) ((b'0' + n % 10) ∷ written) shorter (omega arith)
        ∙ (parse_from-digit (n / 10) (n % 10) written (omega arith) (omega arith)
            ∙ ap (λ v. parse_from v written) whole))
]

starts_with_digit :
    (fuel n : ℕ) (written : Text) → (d : ℕ) × (s : Text) × (digits (suc fuel) n written ≡ d ∷ s)
unfolding digits
starts_with_digit zero n written = elim (Bool-cases (ltb n 10)) [
  | inl e ↦ rw e (b'0' + n, written, refl)
  | inr e ↦ rw e (b'0' + n % 10, written, refl)
]
starts_with_digit (suc fuel) n written = elim (Bool-cases (ltb n 10)) [
  | inl e ↦ rw e (b'0' + n, written, refl)
  | inr e ↦ rw e (starts_with_digit fuel (n / 10) ((b'0' + n % 10) ∷ written))
]

-- The number of a cycle below 2^64 is parsed back as it was written.
pub parse_uint-format_uint : (n : ℕ) → n < 2 ^ 64 → parse_uint (format_uint n) ≡ some n
unfolding format_uint parse_uint
parse_uint-format_uint n bounded =
    let (d, s, e) = starts_with_digit 19 n [] in
    let same : parse_uint (digits 20 n []) ≡ parse_from 0 (digits 20 n []) = rw e refl in
    same ∙ parse_from-digits 19 n [] (omega arith) bounded
