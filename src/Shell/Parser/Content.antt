-- ===== src/Shell/Parser/Content.antt =====
-- What `Parser::parse` keeps of the line.
use mathlib.Core.List.{flatten}
use sphere_multithreading_cp.Prelude.{
  Bool-cases, List, [], ap, append-nil, append_assoc, arith, false, flatten-append, if◌then◌else◌,
  inl, inr, refl, sym, true, ℕ, ◌++◌, ◌==◌, ◌∙◌, ◌∷◌, ◌≡◌,
}
use sphere_multithreading_cp.Shell.{Text}
use sphere_multithreading_cp.Shell.Parser.{
  State, is_space, is_single, is_op_char, is_quote, drop_string_to_buffer, drop_both, in_quote,
  outside, step_at, step, steps, initial, parse,
}
use sphere_multithreading_cp.Shell.Parser.Shapes.{IsValid, cleared}
use sphere_multithreading_cp.Shell.Parser.Tokens.{step_at-IsValid, initial-IsValid}

-- The line without the white space outside quotes and without a quote that never ends; the first
-- argument is the quote that is open, from its first character on.
pub kept : Text → Text → Text
kept q [] = []
kept [] (c ∷ cs) =
    let quoted = kept (c ∷ []) cs in
    let rest = kept [] cs in if is_space c then rest else if is_quote c then quoted else c ∷ rest
kept (q ∷ qs) (c ∷ cs) =
    let more = kept (q ∷ qs ++ c ∷ []) cs in
    let rest = kept [] cs in if q == c then (q ∷ qs ++ c ∷ []) ++ rest else more

-- What the state has collected, in order.
pub pending : State → Text
pending s = flatten s.operands ++ (s.cmd ++ s.op)

flatten-push : (ops : List Text) (t : Text) → flatten (ops ++ t ∷ []) ≡ flatten ops ++ t
unfolding flatten
flatten-push ops t = rw (flatten-append ops (t ∷ []), append-nil t)

flatten-drop :
    (s : Text) (ops : List Text) → flatten (drop_string_to_buffer s ops) ≡ flatten ops ++ s
unfolding drop_string_to_buffer
flatten-drop [] ops = sym (append-nil (flatten ops))
flatten-drop (x ∷ s) ops = flatten-push ops (x ∷ s)

flatten-drop_both : (s : State) → flatten (drop_both s) ≡ pending s
unfolding drop_both pending
flatten-drop_both s =
    rw (flatten-drop s.op (drop_string_to_buffer s.cmd s.operands), flatten-drop s.cmd s.operands)
      (append_assoc (flatten s.operands) s.cmd s.op)

swap_one : (s : State) → IsValid s → s.op ++ s.cmd ≡ s.cmd ++ s.op
swap_one s v = elim v.one [ inl e ↦ rw e (append-nil s.op) | inr e ↦ rw e (sym (append-nil s.cmd)) ]

in_quote-pending :
    (c q : ℕ) (qs : Text) (s : State) (cs : Text)
    → IsValid s
    → s.quote ≡ q ∷ qs
    → pending (in_quote c q qs s) ++ kept (in_quote c q qs s).quote cs
      ≡ pending s ++ kept (q ∷ qs) (c ∷ cs)
unfolding in_quote kept pending
in_quote-pending c q qs s cs v e =
    let (e1, e2) = cleared s q qs v e in
    elim (Bool-cases (q == c)) [
      | inl h ↦ rw (h, e1, e2, flatten-push) (simp (append-nil, append_assoc))
      | inr h ↦ rw h
    ]

single_facts : (c : ℕ) → is_single c ≡ true → is_quote c ≡ false
unfolding is_single is_quote
single_facts c h = ground arith

op_char_facts : (c : ℕ) → is_op_char c ≡ true → is_quote c ≡ false
unfolding is_op_char is_quote
op_char_facts c h = ground arith

regroup :
    (t : Text) (s : State)
    → IsValid s
    → flatten s.operands ++ (s.op ++ (s.cmd ++ t)) ≡ flatten s.operands ++ (s.cmd ++ (s.op ++ t))
regroup t s v =
    ap (◌++◌ (flatten s.operands)) (
      sym (append_assoc s.op s.cmd t) ∙ ap (λ l. l ++ t) (swap_one s v) ∙ append_assoc s.cmd s.op t)

outside-pending :
    (c : ℕ) (s : State) (cs : Text)
    → IsValid s
    → s.quote ≡ []
    → pending (outside c s) ++ kept (outside c s).quote cs ≡ pending s ++ kept [] (c ∷ cs)
unfolding outside kept pending
outside-pending c s cs v e = elim (Bool-cases (is_space c)) [
  | inl h ↦ rw (h, flatten-drop_both s) (simp (e, append-nil, append_assoc))
  | inr h1 ↦ rw h1 (elim (Bool-cases (is_single c)) [
    | inl h ↦
        rw (h, single_facts c h, flatten-push, flatten-drop_both s)
          (simp (e, append-nil, append_assoc))
    | inr h2 ↦ rw h2 (elim (Bool-cases (is_op_char c)) [
      | inl h ↦ rw (h, op_char_facts c h, flatten-drop) (simp (e, append_assoc))
      | inr h3 ↦ rw h3 (elim (Bool-cases (is_quote c)) [
        | inl h ↦ rw (h, flatten-drop_both s) (simp (append-nil, append_assoc))
        | inr h4 ↦
            rw (h4, flatten-drop)
              (simp (e, append-nil, append_assoc) (regroup (c ∷ kept [] cs) s v))
      ])
    ])
  ])
]

step_at-pending :
    (q : Text) (c : ℕ) (s : State) (cs : Text)
    → IsValid s
    → s.quote ≡ q
    → pending (step_at q c s) ++ kept (step_at q c s).quote cs ≡ pending s ++ kept q (c ∷ cs)
unfolding step_at
step_at-pending [] c s cs v e = outside-pending c s cs v e
step_at-pending (q ∷ qs) c s cs v e = in_quote-pending c q qs s cs v e

kept-nil : (q : Text) → kept q [] ≡ []
unfolding kept
kept-nil [] = refl
kept-nil (q ∷ qs) = refl

pub steps-pending :
    (s : State) (cs : Text)
    → IsValid s
    → flatten (drop_both (steps s cs)) ≡ pending s ++ kept s.quote cs
unfolding steps step
steps-pending s [] v = flatten-drop_both s ∙ rw (kept-nil s.quote) (sym (append-nil (pending s)))
steps-pending s (c ∷ cs) v =
    steps-pending (step s c) cs (step_at-IsValid s.quote c s v refl)
    ∙ step_at-pending s.quote c s cs v refl

-- The operands, written one after another, are the line without the white space outside quotes and
-- without a quote that never ends: nothing else is lost, and the order stays.
pub flatten-parse : (command : Text) → flatten (parse command) ≡ kept [] command
unfolding parse pending flatten
flatten-parse command = steps-pending initial command initial-IsValid
