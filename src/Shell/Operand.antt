-- ===== src/Shell/Operand.antt =====
-- p4/Operand.h, p4/Operand.cpp and the part of `main` in p4/main.cpp that makes commands and
-- operators of the parsed operands. File descriptors, `open` and `pipe` are the system's.
pub mod Chain
use sphere_multithreading_cp.Prelude.{
  Bool, List, Option, [], false, if◌then◌else◌, none, some, suc, true, ℕ, ◌++◌, ◌||◌, ◌∷◌,
}
use sphere_multithreading_cp.Shell.{Text, text_eq}

pub data OpType : Type 0 where
  logical_and logical_or conveyor background_mode separator : OpType

unfoldable pub same_op : OpType → OpType → Bool
same_op logical_and logical_and = true
same_op logical_or logical_or = true
same_op conveyor conveyor = true
same_op background_mode background_mode = true
same_op separator separator = true
same_op _ _ = false

-- `fd_input` with `is_input_modified`, and `fd_output` with `is_output_modified`.
pub record Command (Fd : Type 0) : Type 0 where
  pub args : List Text
  pub fd_input : Option Fd
  pub fd_output : Option Fd

pub data Operand (Fd : Type 0) : Type 0 where
  cmd : Command Fd → Operand Fd
  op : OpType → Operand Fd

-- The texts of the operators.
abbrev pub less_text : Text
less_text = b'<' ∷ []

abbrev pub greater_text : Text
greater_text = b'>' ∷ []

abbrev pub or_text : Text
or_text = b'|' ∷ b'|' ∷ []

abbrev pub and_text : Text
and_text = b'&' ∷ b'&' ∷ []

abbrev pub pipe_text : Text
pipe_text = b'|' ∷ []

abbrev pub background_text : Text
background_text = b'&' ∷ []

abbrev pub separator_text : Text
separator_text = b';' ∷ []

-- `is_operator`, in the version that is compiled: `;` is not among them.
pub is_operator : Text → Bool
is_operator s =
    text_eq s or_text || (text_eq s and_text || (text_eq s pipe_text || text_eq s background_text))

-- The ladder of `main` that picks the operator; `none` is the NULL that it starts from.
pub operator_of : Text → Option OpType
operator_of s =
    if text_eq s pipe_text
    then some conveyor
    else if text_eq s or_text
    then some logical_or
    else if text_eq s background_text
    then some background_mode
    else if text_eq s and_text
    then some logical_and
    else if text_eq s separator_text
    then some separator
    else none

module _ {Fd : Type 0} where
  unfoldable pub set_fd_input : Fd → Command Fd → Command Fd
  set_fd_input fd c = record c { fd_input = some fd }

  unfoldable pub set_fd_output : Fd → Command Fd → Command Fd
  set_fd_output fd c = record c { fd_output = some fd }

module _ {Fd : Type 0} (open_input open_output : Text → Fd) where
  -- The loop of `Command::Command`. A `<` or `>` at the end reads past the vector: `none`.
  pub take_words : Command Fd → List Text → Option (Command Fd)
  take_words c [] = some c
  take_words c (w ∷ []) =
      if text_eq w less_text
      then none
      else if text_eq w greater_text
      then none
      else some (record c { args = c.args ++ w ∷ [] })
  take_words c (w ∷ v ∷ ws) =
      let input = take_words (set_fd_input (open_input v) c) ws in
      let output = take_words (set_fd_output (open_output v) c) ws in
      let argument = take_words (record c { args = c.args ++ w ∷ [] }) (v ∷ ws) in
      if text_eq w less_text then input else if text_eq w greater_text then output else argument

  pub new_command : List Text → Option (Command Fd)
  new_command ws = take_words (record { args = []; fd_input = none; fd_output = none }) ws

  -- The first `for` of `main`: `ws` is `commands_to_process`, `out` is `operands`.
  pub make_operands : List Text → List Text → List (Operand Fd) → Option (List (Operand Fd))
  make_operands [] [] out = some out
  make_operands [] (w ∷ ws) out = elim (new_command (w ∷ ws)) [
    | none ↦ none
    | some c ↦ some (out ++ cmd c ∷ [])
  ]
  make_operands (t ∷ ts) ws out =
      let word = make_operands ts (ws ++ t ∷ []) out in
      let next = λ (c : Command Fd) (o : OpType). make_operands ts [] (out ++ cmd c ∷ op o ∷ []) in
      if is_operator t
      then elim (new_command ws) [
        | none ↦ none
        | some c ↦ elim (operator_of t) [ none ↦ none | some o ↦ next c o ]
      ]
      else word

-- The second `for`: each pipe joins the commands beside it. `pipe k` are the two ends that the
-- call number `k` gives. A pipe with no command behind it writes through a bad pointer: `none`.
module _ {Fd : Type 0} (pipe : ℕ → Fd × Fd) where
  abbrev in_front : Operand Fd → Option (List (Operand Fd)) → Option (List (Operand Fd))
  in_front o none = none
  in_front o (some r) = some (o ∷ r)

  -- `link_from k c` stands behind the command `c`, which a pipe that follows may still change.
  unfoldable mutual
    pub link_pipes : ℕ → List (Operand Fd) → Option (List (Operand Fd))
    link_pipes k [] = some []
    link_pipes k (cmd c ∷ r) = link_from k c r
    link_pipes k (op conveyor ∷ r) = none
    link_pipes k (op o ∷ r) = in_front (op o) (link_pipes k r)

    pub link_from : ℕ → Command Fd → List (Operand Fd) → Option (List (Operand Fd))
    link_from k c [] = some (cmd c ∷ [])
    link_from k c (cmd d ∷ r) = in_front (cmd c) (link_from k d r)
    link_from k c (op conveyor ∷ []) = none
    link_from k c (op conveyor ∷ op o ∷ r) = none
    link_from k c (op conveyor ∷ cmd d ∷ r) =
        in_front (cmd (set_fd_output (pipe k).1 c))
          (in_front (op conveyor) (link_from (suc k) (set_fd_input (pipe k).0 d) r))
    link_from k c (op o ∷ r) = in_front (cmd c) (in_front (op o) (link_pipes k r))
