-- ===== src/Text/Order.antt =====
-- The order of texts is total, and its equality test decides equality.
use my_mad_kv.Prelude.{◌≡◌, refl, ◌↔◌, ◌≢◌, true, false, [], ◌∷◌, arith, Ordering}
use my_mad_kv.Text.{Text, text_compare, text_eq, text_ltb}

pub text_compare-eq_iff : (a b : Text) → (text_compare a b ≡ Ordering.eq) ↔ (a ≡ b)
unfolding text_compare
text_compare-eq_iff [] [] = ground arith
text_compare-eq_iff [] (b ∷ bs) = ground arith
text_compare-eq_iff (a ∷ as') [] = ground arith
text_compare-eq_iff (a ∷ as') (b ∷ bs) = ground (arith, text_compare-eq_iff as' bs)

pub text_eq_iff : (a b : Text) → (text_eq a b ≡ true) ↔ (a ≡ b)
unfolding text_eq
text_eq_iff a b = ground (arith, text_compare-eq_iff a b)

pub text_eq_refl : (a : Text) → text_eq a a ≡ true
text_eq_refl a = (text_eq_iff a a).1 refl

pub text_eq_ne : (a b : Text) → a ≢ b → text_eq a b ≡ false
text_eq_ne a b h = ground (arith, text_eq_iff a b)

pub text_compare_flip :
    (a b : Text) → (text_compare a b ≡ Ordering.lt) ↔ (text_compare b a ≡ Ordering.gt)
unfolding text_compare
text_compare_flip [] [] = ground arith
text_compare_flip [] (b ∷ bs) = ground arith
text_compare_flip (a ∷ as') [] = ground arith
text_compare_flip (a ∷ as') (b ∷ bs) = ground (arith, text_compare_flip as' bs)

pub text_compare_trans :
    (a b c : Text)
    → text_compare a b ≡ Ordering.lt
    → text_compare b c ≡ Ordering.lt
    → text_compare a c ≡ Ordering.lt
unfolding text_compare
text_compare_trans [] [] c h k = cc
text_compare_trans [] (b ∷ bs) [] h k = cc
text_compare_trans [] (b ∷ bs) (c ∷ cs) h k = refl
text_compare_trans (a ∷ as') [] c h k = cc
text_compare_trans (a ∷ as') (b ∷ bs) [] h k = cc
text_compare_trans (a ∷ as') (b ∷ bs) (c ∷ cs) h k = ground (arith, text_compare_trans as' bs cs)

pub text_ltb_irrefl : (a : Text) → text_ltb a a ≡ false
unfolding text_ltb
text_ltb_irrefl a = ground (arith, text_compare-eq_iff a a)

pub text_ltb_trans :
    (a b c : Text) → text_ltb a b ≡ true → text_ltb b c ≡ true → text_ltb a c ≡ true
unfolding text_ltb
text_ltb_trans a b c h k = ground (arith, text_compare_trans a b c)

pub text_ltb_asymm : (a b : Text) → text_ltb a b ≡ true → text_ltb b a ≡ false
unfolding text_ltb
text_ltb_asymm a b h = ground (arith, text_compare_flip a b, text_compare_flip b a)

-- Of two texts neither of which is the smaller, both are the same.
pub text_ltb_connex : (a b : Text) → text_ltb a b ≡ false → text_ltb b a ≡ false → a ≡ b
unfolding text_ltb
text_ltb_connex a b h k =
    ground (arith, text_compare_flip a b, text_compare_flip b a, text_compare-eq_iff a b)
