-- ===== src/Stamp/Order.antt =====
-- How the text order of the stored instants and their order in time compare.
use wpx.Prelude.{◌≡◌, true, ◌<◌, arith, ◌^◌}
use wpx.Stamp.{Stamp, before, fraction_text, text_lt, sorts_before}

-- Of two instants in different seconds, the one in the earlier second sorts first in the text order
-- of the stored instants and is before the other in time.
pub sorts_before-second :
    (a b : Stamp)
    → a.nano < 10 ^ 9
    → b.nano < 10 ^ 9
    → a.second < b.second
    → (sorts_before a b ≡ true) × (before a b ≡ true)
unfolding sorts_before before
sorts_before-second a b p q h = (ground arith, ground arith)

-- Within one second, the instant at the second itself sorts behind every later instant of that
-- second in the text order of the stored instants, though it is before it in time.
pub sorts_before-inverted :
    (a b : Stamp)
    → a.second ≡ b.second
    → a.nano ≡ 0
    → 0 < b.nano
    → (before a b ≡ true) × (sorts_before b a ≡ true)
unfolding sorts_before before text_lt fraction_text
sorts_before-inverted a b s z h = (ground arith, ground arith)
