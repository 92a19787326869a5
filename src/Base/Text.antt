-- ===== src/Base/Text.antt =====
-- `std::string` as the list of its bytes, in the order of its `operator<`.
use Prim.Native.Nat.{ℕ, compare, Ordering}
use Prim.Native.Char.{code}
use Prim.Native.String.{String}
use mathlib.Core.Path.{◌≡◌, refl}
use mathlib.Core.Logic.{◌↔◌}
use mathlib.Core.List.{List, [], ◌∷◌}
use native.Mathlib.Omega.{arith}
use server_game.Base.Key.{Key}

abbrev pub Text : Type 0
Text = List ℕ

-- A literal of the source, all of which are ASCII.
abbrev pub str : String → Text
str String.[] = []
str (String.◌∷◌ c s) = code c ∷ str s

-- `std::string::compare`: the first byte that differs decides.
unfoldable pub compare_text : Text → Text → Ordering
compare_text [] [] = Ordering.eq
compare_text [] (y ∷ ys) = Ordering.lt
compare_text (x ∷ xs) [] = Ordering.gt
compare_text (x ∷ xs) (y ∷ ys) = elim (compare x y) [
  | Ordering.lt ↦ Ordering.lt
  | Ordering.eq ↦ compare_text xs ys
  | Ordering.gt ↦ Ordering.gt
]

text_refl : (a : Text) → compare_text a a ≡ Ordering.eq
unfolding compare_text
text_refl [] = refl
text_refl (x ∷ xs) = ground (arith, text_refl xs)

text_eq : (a b : Text) → compare_text a b ≡ Ordering.eq → a ≡ b
unfolding compare_text
text_eq [] [] h = refl
text_eq [] (y ∷ ys) h = cc
text_eq (x ∷ xs) [] h = cc
text_eq (x ∷ xs) (y ∷ ys) h = ground (arith, text_eq xs ys)

pub text_iff : (a b : Text) → (compare_text a b ≡ Ordering.eq) ↔ (a ≡ b)
text_iff a b = (text_eq a b, λ e. rw e (text_refl b))

pub text_flip : (a b : Text) → (compare_text a b ≡ Ordering.lt) ↔ (compare_text b a ≡ Ordering.gt)
unfolding compare_text
text_flip [] [] = ground arith
text_flip [] (y ∷ ys) = ground arith
text_flip (x ∷ xs) [] = ground arith
text_flip (x ∷ xs) (y ∷ ys) = ground (arith, text_flip xs ys)

pub text_trans :
    (a b c : Text)
    → compare_text a b ≡ Ordering.lt
    → compare_text b c ≡ Ordering.lt
    → compare_text a c ≡ Ordering.lt
unfolding compare_text
text_trans [] [] c h k = cc
text_trans [] (y ∷ ys) [] h k = cc
text_trans [] (y ∷ ys) (z ∷ zs) h k = refl
text_trans (x ∷ xs) [] c h k = cc
text_trans (x ∷ xs) (y ∷ ys) [] h k = cc
text_trans (x ∷ xs) (y ∷ ys) (z ∷ zs) h k = ground (arith, text_trans xs ys zs)

instance abbrev pub text_key : Key Text
text_key = record {
  cmp = compare_text;
  cmp_iff = text_iff;
  cmp_flip = text_flip;
  cmp_trans = text_trans;
}
