-- ===== src/Stamp.antt =====
-- The instants that the store writes as text: `s.now().UTC().Format(time.RFC3339Nano)` in every
-- operation of internal/store. The date and the time of day up to the second have a fixed width, so
-- their text order is the order of the seconds, which a stamp keeps as a number; the fraction of a
-- second is kept as its nanoseconds and written out by `fraction_text`.
pub mod Order
pub mod Weak
use wpx.Prelude.{
  ℕ, zero, suc, ◌+◌, ◌*◌, ◌/◌, ◌%◌, ◌^◌, Bool, true, false, ◌&&◌, ◌||◌, List, [], ◌∷◌, ◌++◌, ltb,
  ◌==◌, if◌then◌else◌,
}
use wpx.Text.{Text}

pub record Stamp : Type 0 where
  pub second : ℕ
  pub nano : ℕ

-- The instant in nanoseconds, as `time.Time` compares it.
abbrev pub instant : Stamp → ℕ
instant t = t.second * 10 ^ 9 + t.nano

-- `now.Add(d)` for a duration in nanoseconds
unfoldable pub add : Stamp → ℕ → Stamp
add t d = record { second = (instant t + d) / 10 ^ 9; nano = (instant t + d) % 10 ^ 9 }

-- `s.now().Before(expires)`; the text is parsed back without loss.
unfoldable pub before : Stamp → Stamp → Bool
before a b = ltb (instant a) (instant b)

-- The digits of a fraction from the digit of weight `10 ^ width / 10` on, without trailing zeros.
unfoldable pub fraction_digits : ℕ → ℕ → Text
fraction_digits zero n = []
fraction_digits (suc width) n =
    let rest = fraction_digits width (n % 10 ^ width) in
    if n == 0 then [] else (b'0' + n / 10 ^ width) ∷ rest

-- The end of the text: the fraction, with its point, unless it is 0, and the zone.
unfoldable pub fraction_text : ℕ → Text
unfolding fraction_digits
fraction_text n =
    let digits = fraction_digits 9 n in if n == 0 then b'Z' ∷ [] else b'.' ∷ digits ++ b'Z' ∷ []

-- The order of texts in SQLite's BINARY collation.
unfoldable pub text_lt : Text → Text → Bool
text_lt s [] = false
text_lt [] (d ∷ t) = true
text_lt (c ∷ s) (d ∷ t) = ltb c d || (c == d && text_lt s t)

-- `ORDER BY created_at` compares the texts.
unfoldable pub sorts_before : Stamp → Stamp → Bool
sorts_before a b =
    ltb a.second b.second
    || (a.second == b.second && text_lt (fraction_text a.nano) (fraction_text b.nano))
