-- ===== src/Text/Laws.antt =====
-- Facts about the text functions.
use wpx.Prelude.{ℕ, true, [], ◌∷◌, ◌≡◌, ◌↔◌, refl, arith}
use wpx.Text.{Text, ◌=ᵗ◌, lower_rune, to_lower}

pub =ᵗ_refl : (s : Text) → (s =ᵗ s) ≡ true
unfolding ◌=ᵗ◌
=ᵗ_refl [] = refl
=ᵗ_refl (x ∷ xs) = ground (arith, =ᵗ_refl xs)

pub =ᵗ_eq : (s t : Text) → (s =ᵗ t) ≡ true → s ≡ t
unfolding ◌=ᵗ◌
=ᵗ_eq [] [] h = refl
=ᵗ_eq [] (y ∷ ys) h = ground arith
=ᵗ_eq (x ∷ xs) [] h = ground arith
=ᵗ_eq (x ∷ xs) (y ∷ ys) h = ground (arith, =ᵗ_eq xs ys)

pub =ᵗ_iff : (s t : Text) → ((s =ᵗ t) ≡ true) ↔ (s ≡ t)
=ᵗ_iff s t = (=ᵗ_eq s t, λ e. rw e (=ᵗ_refl t))

lower_rune_idempotent : (c : ℕ) → lower_rune (lower_rune c) ≡ lower_rune c
unfolding lower_rune
lower_rune_idempotent c = ground arith

pub to_lower_idempotent : (t : Text) → to_lower (to_lower t) ≡ to_lower t
unfolding to_lower
to_lower_idempotent [] = refl
to_lower_idempotent (c ∷ t) = cc (lower_rune_idempotent c, to_lower_idempotent t)
