-- ===== src/Base/Texts.antt =====
-- The order of texts, by their characters.
use Prim.Native.Nat.{ℕ, Ordering, compare as compare_ℕ}
use Prim.Native.Char.{code}
use Prim.Native.String.{String, [], ◌∷◌, then, compare}
use Prim.Native.String.compare
use text.Mathlib.Text.{is_lt}
use mathlib.Core.Path.{◌≡◌, refl, sym, ap, ◌∙◌}
use mathlib.Core.Bool.{Bool, true, false}
use native.Mathlib.Omega.{arith}

abbrev pub text_lt : String → String → Bool
text_lt a b = is_lt (compare a b)

then-asym :
    (m n : ℕ) (o r : Ordering)
    → (is_lt o ≡ true → is_lt r ≡ false)
    → is_lt (then (compare_ℕ m n) o) ≡ true
    → is_lt (then (compare_ℕ n m) r) ≡ false
then-asym m n o r h e = ground arith

pub text_lt-asym : (a b : String) → text_lt a b ≡ true → text_lt b a ≡ false
text_lt-asym [] [] e = refl
text_lt-asym [] (d ∷ t) e = rw (compare.cons-nil d t) refl
text_lt-asym (c ∷ s) [] e = rw (compare.nil-cons c s) (sym e ∙ ap is_lt (compare.cons-nil c s))
text_lt-asym (c ∷ s) (d ∷ t) e = rw (compare.cons-cons d c t s) (
    then-asym (code c) (code d) (compare s t) (compare t s) (text_lt-asym s t)
      (sym (ap is_lt (compare.cons-cons c d s t)) ∙ e))
