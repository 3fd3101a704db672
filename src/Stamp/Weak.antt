-- ===== src/Stamp/Weak.antt =====
-- Facts about the text order of the stored instants.
use wpx.Prelude.{true, false, ◌||◌, ◌≡◌, [], ◌∷◌, arith, refl}
use wpx.Text.{Text}
use wpx.Stamp.{Stamp, fraction_text, text_lt, sorts_before}

pub text_lt_weak : (s t u : Text) → text_lt s u ≡ true → (text_lt s t || text_lt t u) ≡ true
unfolding text_lt
text_lt_weak s t [] h = ground arith
text_lt_weak [] [] (d ∷ u) h = refl
text_lt_weak [] (c ∷ t) (d ∷ u) h = refl
text_lt_weak (b ∷ s) [] (d ∷ u) h = refl
text_lt_weak (b ∷ s) (c ∷ t) (d ∷ u) h = ground (arith, text_lt_weak s t u)

-- No text is before itself, and of two texts at most one is before the other.
pub text_lt_asym : (s t : Text) → text_lt s t ≡ true → text_lt t s ≡ false
unfolding text_lt
text_lt_asym s [] h = ground arith
text_lt_asym [] (d ∷ t) h = refl
text_lt_asym (c ∷ s) (d ∷ t) h = ground (arith, text_lt_asym s t)

pub sorts_before_weak :
    (a b c : Stamp) → sorts_before a c ≡ true → (sorts_before a b || sorts_before b c) ≡ true
unfolding sorts_before
sorts_before_weak a b c h =
    ground
      (arith, text_lt_weak (fraction_text a.nano) (fraction_text b.nano) (fraction_text c.nano))

pub sorts_before_asym : (a b : Stamp) → sorts_before a b ≡ true → sorts_before b a ≡ false
unfolding sorts_before
sorts_before_asym a b h = ground (arith, text_lt_asym (fraction_text a.nano) (fraction_text b.nano))
