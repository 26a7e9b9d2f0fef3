-- ===== src/Shell/Operand/Chain.antt =====
-- The operands that `main` of p4/main.cpp makes always alternate: commands joined by operators.
use mathlib.Core.Option
use sphere_multithreading_cp.Prelude.{
  Bool-cases, List, Option, Option-cases, [], ap, append-nil, append_assoc, arith, if◌then◌else◌,
  inl, inr, none, refl, some, sym, ◌++◌, ◌∙◌, ◌∷◌, ◌≡◌,
}
use sphere_multithreading_cp.Shell.{Text}
use sphere_multithreading_cp.Shell.Operand.{
  OpType, Command, Operand, cmd, op, is_operator, operator_of, new_command, make_operands,
}

-- Commands, each with the operator behind it, and the command that may end the line.
pub record Chain (Fd : Type 0) : Type 0 where
  pub links : List (Command Fd × OpType)
  pub last : Option (Command Fd)

module _ {Fd : Type 0} where
  unfoldable pub operands_of : List (Command Fd × OpType) → Option (Command Fd) → List (Operand Fd)
  operands_of [] none = []
  operands_of [] (some c) = cmd c ∷ []
  operands_of ((c, o) ∷ r) l = cmd c ∷ op o ∷ operands_of r l

  abbrev pub flat : Chain Fd → List (Operand Fd)
  flat ch = operands_of ch.links ch.last

  abbrev pub add_link : Command Fd → OpType → Chain Fd → Chain Fd
  add_link c o ch = record ch { links = (c, o) ∷ ch.links }

-- The line cut at its operators: `ws` are the words since the last one.
module _ {Fd : Type 0} (open_input open_output : Text → Fd) where
  pub chain : List Text → List Text → Option (Chain Fd)
  chain [] [] = some (record { links = []; last = none })
  chain [] (w ∷ ws) =
      Option.map (λ c. record { links = []; last = some c })
        (new_command open_input open_output (w ∷ ws))
  chain (t ∷ ts) ws =
      let rest = chain ts [] in
      let word = chain ts (ws ++ t ∷ []) in
      if is_operator t
      then elim (new_command open_input open_output ws) [
        | none ↦ none
        | some c ↦ elim (operator_of t) [ none ↦ none | some o ↦ Option.map (add_link c o) rest ]
      ]
      else word

  regroup :
      (c : Command Fd) (o : OpType) (out : List (Operand Fd)) (ch : Option (Chain Fd))
      → Option.map (λ ch. (out ++ cmd c ∷ op o ∷ []) ++ flat ch) ch
        ≡ Option.map (λ ch. out ++ flat ch) (Option.map (add_link c o) ch)
  unfolding operands_of
  regroup c o out none = refl
  regroup c o out (some ch) = ap some (append_assoc out (cmd c ∷ op o ∷ []) (flat ch))

  -- The operands of a line are those of its chain, behind what was there: every operator has a
  -- command before it, and two commands are never side by side.
  pub make_operands-chain :
      (ts ws : List Text) (out : List (Operand Fd))
      → make_operands open_input open_output ts ws out
        ≡ Option.map (λ ch. out ++ flat ch) (chain ts ws)
  unfolding make_operands chain operands_of
  make_operands-chain [] [] out = ap some (sym (append-nil out))
  make_operands-chain [] (w ∷ ws) out = ground arith
  make_operands-chain (t ∷ ts) ws out = elim (Bool-cases (is_operator t)) [
    | inr h ↦ rw h (make_operands-chain ts (ws ++ t ∷ []) out)
    | inl h ↦ rw h (elim (Option-cases (new_command open_input open_output ws)) [
      | inl e ↦ rw e
      | inr (c, e) ↦ rw e (elim (Option-cases (operator_of t)) [
        | inl k ↦ rw k
        | inr (o, k) ↦
            rw k
              (make_operands-chain ts [] (out ++ cmd c ∷ op o ∷ []) ∙ regroup c o out (chain ts []))
      ])
    ])
  ]
