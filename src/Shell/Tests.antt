-- ===== src/Shell/Tests.antt =====
-- p4: short command lines.
use mathlib.Core.Option
use mathlib.Core.List.{flatten}
use sphere_multithreading_cp.Prelude.{List, [], length, none, some, true, ℕ, ◌++◌, ◌-◌, ◌∷◌, ◌≡◌}
use sphere_multithreading_cp.Shell.{Text}
use sphere_multithreading_cp.Shell.Parser.{parse}
use sphere_multithreading_cp.Shell.Parser.Tokens.{parse-tokens}
use sphere_multithreading_cp.Shell.Parser.Content.{kept, flatten-parse}
use sphere_multithreading_cp.Shell.Parser.RoundTrip.{print, parse-print}
use sphere_multithreading_cp.Shell.Operand.{OpType, Command, logical_and, logical_or, make_operands}
use sphere_multithreading_cp.Shell.Operand.Chain.{operands_of, flat, chain, make_operands-chain}
use sphere_multithreading_cp.Shell.Run.{Status, run}
use sphere_multithreading_cp.Shell.Run.Laws.{eval, run-eval}

-- a && "b"
abbrev line : Text
line = 97 ∷ 32 ∷ 38 ∷ 38 ∷ 34 ∷ 98 ∷ 34 ∷ []

abbrev line_tokens : List Text
line_tokens = (97 ∷ []) ∷ (38 ∷ 38 ∷ []) ∷ (34 ∷ 98 ∷ 34 ∷ []) ∷ []

flatten-parse_example : flatten (parse line) ≡ kept [] line
flatten-parse_example = flatten-parse line

parse-print_example : parse (print (parse line)) ≡ parse line
parse-print_example = parse-print (parse line) (parse-tokens line)

abbrev command : List Text → Command ℕ
command args = record { args = args; fd_input = none; fd_output = none }

-- Commands of more than one word fail; the world is the list of what ran.
abbrev exec : Command ℕ → List (Command ℕ) → Status × List (Command ℕ)
exec c w = (record { exited = true; code = length c.args - 1 }, c ∷ w)

abbrev links : List (Command ℕ × OpType)
links = (command (line ∷ line ∷ []), logical_and) ∷ (command (line ∷ []), logical_or) ∷ []

run-eval_example :
    run exec (record { exited = true; code = 0 }) [] (operands_of links (some (command [])))
    ≡ eval exec true (record { exited = true; code = 0 }) [] links (some (command []))
run-eval_example = run-eval exec (record { exited = true; code = 0 }) [] links (some (command []))

make_operands-chain_example :
    make_operands length length line_tokens [] []
    ≡ Option.map (λ ch. [] ++ flat ch) (chain length length line_tokens [])
make_operands-chain_example = make_operands-chain length length line_tokens [] []
