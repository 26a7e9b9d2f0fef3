-- ===== src/Shell.antt =====
-- p4: the shell. `Parser` cuts a line into operands, `Operand` makes commands and operators of
-- them, `Run` executes the list. A text is the list of its character codes.
pub mod Parser
pub mod Operand
pub mod Process
pub mod Run
mod Tests
use sphere_multithreading_cp.Prelude.{
  ==_refl, Bool, List, [], false, refl, true, ℕ, ◌&&◌, ◌==◌, ◌∷◌, ◌≡◌,
}

abbrev pub Text : Type 0
Text = List ℕ

-- `==` of two strings.
unfoldable pub text_eq : Text → Text → Bool
text_eq [] [] = true
text_eq (x ∷ xs) (y ∷ ys) = (x == y) && text_eq xs ys
text_eq [] (y ∷ ys) = false
text_eq (x ∷ xs) [] = false

pub text_eq_refl : (s : Text) → text_eq s s ≡ true
unfolding text_eq
text_eq_refl [] = refl
text_eq_refl (x ∷ xs) = rw (==_refl x) (text_eq_refl xs)
