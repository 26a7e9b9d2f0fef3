-- ===== src/Shell/Parser.antt =====
-- p4/Parser.h and p4/Parser.cpp: `Parser::parse`, one character at a time.
pub mod Tokens
pub mod Shapes
pub mod Content
pub mod RoundTrip
use sphere_multithreading_cp.Prelude.{
  Bool, List, [], if◌then◌else◌, leb, ℕ, ◌&&◌, ◌++◌, ◌==◌, ◌||◌, ◌∷◌,
}
use sphere_multithreading_cp.Shell.{Text}

-- The member `operands` and the local strings of `parse`.
pub record State : Type 0 where
  pub operands : List Text
  pub cmd : Text
  pub op : Text
  pub quote : Text

-- `isspace` of the C locale.
unfoldable pub is_space : ℕ → Bool
is_space c = (c == 32) || (leb 9 c && leb c 13)

-- `<`, `>` and `;`
pub is_single : ℕ → Bool
is_single c = (c == b'<') || (c == b'>') || (c == b';')

-- `&` and `|`
pub is_op_char : ℕ → Bool
is_op_char c = (c == b'&') || (c == b'|')

-- `'` and `"`
pub is_quote : ℕ → Bool
is_quote c = (c == 39) || (c == 34)

-- The operands after the call; the string itself is cleared.
pub drop_string_to_buffer : Text → List Text → List Text
drop_string_to_buffer [] operands = operands
drop_string_to_buffer (x ∷ s) operands = operands ++ (x ∷ s) ∷ []

-- Both `drop_string_to_buffer(cmd)` and `drop_string_to_buffer(op)`, in this order.
pub drop_both : State → List Text
unfolding drop_string_to_buffer
drop_both s = drop_string_to_buffer s.op (drop_string_to_buffer s.cmd s.operands)

pub in_quote : ℕ → ℕ → Text → State → State
in_quote c q qs s =
    if q == c
    then record s { operands = s.operands ++ (q ∷ qs ++ c ∷ []) ∷ []; quote = [] }
    else record s { quote = q ∷ qs ++ c ∷ [] }

pub outside : ℕ → State → State
outside c s =
    if is_space c
    then record s { operands = drop_both s; cmd = []; op = [] }
    else if is_single c
    then record s { operands = drop_both s ++ (c ∷ []) ∷ []; cmd = []; op = [] }
    else if is_op_char c
    then record s {
      operands = drop_string_to_buffer s.cmd s.operands;
      cmd = [];
      op = s.op ++ c ∷ [];
    }
    else if is_quote c
    then record s { operands = drop_both s; cmd = []; op = []; quote = c ∷ [] }
    else record s {
      operands = drop_string_to_buffer s.op s.operands;
      cmd = s.cmd ++ c ∷ [];
      op = [];
    }

-- The body of the `for`; `quote` decides which branch is taken.
pub step_at : Text → ℕ → State → State
step_at [] c s = outside c s
step_at (q ∷ qs) c s = in_quote c q qs s

pub step : State → ℕ → State
step s c = step_at s.quote c s

pub steps : State → Text → State
steps s [] = s
steps s (c ∷ cs) = steps (step s c) cs

abbrev pub initial : State
initial = record { operands = []; cmd = []; op = []; quote = [] }

pub parse : Text → List Text
parse command = drop_both (steps initial command)
