-- ===== src/Shell/Parser/RoundTrip.antt =====
-- `Parser::parse` reads back a line that is written from operands with a space behind each.
use sphere_multithreading_cp.Prelude.{
  Bool-cases, List, [], and_true, ap, append-nil, append_assoc, arith, false, inl, inr, is_empty,
  not, not-true, refl, true, ℕ, ◌++◌, ◌==◌, ◌∙◌, ◌∷◌, ◌≡◌,
}
use sphere_multithreading_cp.Shell.{Text}
use sphere_multithreading_cp.Shell.Parser.{
  State, is_space, is_single, is_op_char, is_quote, drop_string_to_buffer, drop_both, in_quote,
  outside, step_at, step, steps, parse,
}
use sphere_multithreading_cp.Shell.Parser.Shapes.{is_plain, all, closes, is_token, all_tokens}

pub print : List Text → Text
print [] = []
print (t ∷ ts) = t ++ 32 ∷ print ts

abbrev collecting : List Text → Text → Text → Text → State
collecting ops w o q = record { operands = ops; cmd = w; op = o; quote = q }

abbrev between : List Text → State
between ops = collecting ops [] [] []

plain_facts :
    (c : ℕ)
    → is_plain c ≡ true
    → (is_space c ≡ false) × (is_single c ≡ false) × (is_op_char c ≡ false) × (is_quote c ≡ false)
unfolding is_plain
plain_facts c h = ground arith

op_char_facts : (c : ℕ) → is_op_char c ≡ true → (is_space c ≡ false) × (is_single c ≡ false)
unfolding is_op_char is_space is_single
op_char_facts c h = ground arith

single_facts : (c : ℕ) → is_single c ≡ true → is_space c ≡ false
unfolding is_space is_single
single_facts c h = ground arith

quote_facts :
    (c : ℕ)
    → is_quote c ≡ true
    → (is_space c ≡ false) × (is_single c ≡ false) × (is_op_char c ≡ false)
unfolding is_op_char is_space is_single is_quote
quote_facts c h = ground arith

module _ (c : ℕ) (ops : List Text) where
  step-plain :
      (w : Text)
      → is_plain c ≡ true
      → step (collecting ops w [] []) c ≡ collecting ops (w ++ c ∷ []) [] []
  unfolding step step_at outside drop_string_to_buffer
  step-plain w h = let (a, b, d, e) = plain_facts c h in rw a (rw b (rw d (rw e)))

  step-op_char :
      (o : Text)
      → is_op_char c ≡ true
      → step (collecting ops [] o []) c ≡ collecting ops [] (o ++ c ∷ []) []
  unfolding step step_at outside drop_string_to_buffer
  step-op_char o h = let (a, b) = op_char_facts c h in rw a (rw b (rw h))

  step-single : is_single c ≡ true → step (between ops) c ≡ between (ops ++ (c ∷ []) ∷ [])
  unfolding step step_at outside drop_both drop_string_to_buffer
  step-single h = rw (single_facts c h) (rw h)

  step-open : is_quote c ≡ true → step (between ops) c ≡ collecting ops [] [] (c ∷ [])
  unfolding step step_at outside drop_both drop_string_to_buffer
  step-open h = let (a, b, d) = quote_facts c h in rw a (rw b (rw d (rw h)))

  step-quoted :
      (q : ℕ) (qs : Text)
      → (q == c) ≡ false
      → step (collecting ops [] [] (q ∷ qs)) c ≡ collecting ops [] [] (q ∷ qs ++ c ∷ [])
  unfolding step step_at in_quote
  step-quoted q qs h = rw h

  step-close :
      (q : ℕ) (qs : Text)
      → (q == c) ≡ true
      → step (collecting ops [] [] (q ∷ qs)) c ≡ between (ops ++ (q ∷ qs ++ c ∷ []) ∷ [])
  unfolding step step_at in_quote
  step-close q qs h = rw h

-- The space behind an operand.
step-space :
    (ops : List Text) (w o : Text)
    → step (collecting ops w o []) 32
      ≡ between (drop_string_to_buffer o (drop_string_to_buffer w ops))
unfolding step step_at outside is_space drop_both
step-space ops w o = refl

steps-word :
    (cs w r : Text) (ops : List Text)
    → all is_plain cs ≡ true
    → steps (collecting ops w [] []) (cs ++ r) ≡ steps (collecting ops (w ++ cs) [] []) r
unfolding steps all
steps-word [] w r ops h = rw (append-nil w)
steps-word (c ∷ cs) w r ops h =
    let (p, k) = and_true (is_plain c) (all is_plain cs) h in
    ap (λ s. steps s (cs ++ r)) (step-plain c ops w p)
    ∙ steps-word cs (w ++ c ∷ []) r ops k
    ∙ ap (λ l. steps (collecting ops l [] []) r) (append_assoc w (c ∷ []) cs)

steps-operator :
    (cs o r : Text) (ops : List Text)
    → all is_op_char cs ≡ true
    → steps (collecting ops [] o []) (cs ++ r) ≡ steps (collecting ops [] (o ++ cs) []) r
unfolding steps all
steps-operator [] o r ops h = rw (append-nil o)
steps-operator (c ∷ cs) o r ops h =
    let (p, k) = and_true (is_op_char c) (all is_op_char cs) h in
    ap (λ s. steps s (cs ++ r)) (step-op_char c ops o p)
    ∙ steps-operator cs (o ++ c ∷ []) r ops k
    ∙ ap (λ l. steps (collecting ops [] l []) r) (append_assoc o (c ∷ []) cs)

steps-quote :
    (q : ℕ) (cs qs r : Text) (ops : List Text)
    → closes q cs ≡ true
    → steps (collecting ops [] [] (q ∷ qs)) (cs ++ r)
      ≡ steps (between (ops ++ (q ∷ qs ++ cs) ∷ [])) r
unfolding steps closes
steps-quote q [] qs r ops h = cc
steps-quote q (c ∷ []) qs r ops h = ap (λ s. steps s r) (step-close c ops q qs h)
steps-quote q (c ∷ d ∷ cs) qs r ops h =
    let (p, k) = and_true (not (q == c)) (closes q (d ∷ cs)) h in
    ap (λ s. steps s (d ∷ cs ++ r)) (step-quoted c ops q qs (not-true (q == c) p))
    ∙ steps-quote q (d ∷ cs) (qs ++ c ∷ []) r ops k
    ∙ ap (λ l. steps (between (ops ++ (q ∷ l) ∷ [])) r) (append_assoc qs (c ∷ []) (d ∷ cs))

-- The space behind an operand that is already in the list changes nothing.
steps-space :
    (ops : List Text) (w o r : Text)
    → steps (collecting ops w o []) (32 ∷ r)
      ≡ steps (between (drop_string_to_buffer o (drop_string_to_buffer w ops))) r
unfolding steps
steps-space ops w o r = ap (λ s. steps s r) (step-space ops w o)

steps-single :
    (c : ℕ) (cs r : Text) (ops : List Text)
    → is_single c ≡ true
    → is_empty cs ≡ true
    → steps (between ops) (c ∷ cs ++ 32 ∷ r) ≡ steps (between (ops ++ (c ∷ cs) ∷ [])) r
unfolding steps drop_string_to_buffer
steps-single c [] r ops h e =
    ap (λ s. steps s (32 ∷ r)) (step-single c ops h) ∙ steps-space (ops ++ (c ∷ []) ∷ []) [] [] r
steps-single c (d ∷ cs) r ops h e = cc

steps-quoted :
    (c : ℕ) (cs r : Text) (ops : List Text)
    → is_quote c ≡ true
    → closes c cs ≡ true
    → steps (between ops) (c ∷ cs ++ 32 ∷ r) ≡ steps (between (ops ++ (c ∷ cs) ∷ [])) r
unfolding steps drop_string_to_buffer
steps-quoted c cs r ops h k =
    ap (λ s. steps s (cs ++ 32 ∷ r)) (step-open c ops h)
    ∙ steps-quote c cs [] (32 ∷ r) ops k
    ∙ steps-space (ops ++ (c ∷ cs) ∷ []) [] [] r

-- One operand and the space behind it.
steps-token :
    (t r : Text) (ops : List Text)
    → is_token t ≡ true
    → steps (between ops) (t ++ 32 ∷ r) ≡ steps (between (ops ++ t ∷ [])) r
unfolding is_token drop_string_to_buffer
steps-token [] r ops h = cc
steps-token (c ∷ cs) r ops h = elim (Bool-cases (all is_plain (c ∷ cs))) [
  | inl p ↦ steps-word (c ∷ cs) [] (32 ∷ r) ops p ∙ steps-space ops (c ∷ cs) [] r
  | inr p ↦ elim (Bool-cases (all is_op_char (c ∷ cs))) [
    | inl o ↦ steps-operator (c ∷ cs) [] (32 ∷ r) ops o ∙ steps-space ops [] (c ∷ cs) r
    | inr o ↦ elim (Bool-cases (is_quote c)) [
      | inl i ↦ steps-quoted c cs r ops i (ground (arith, quote_facts c))
      | inr i ↦ steps-single c cs r ops (ground arith) (ground arith)
    ]
  ]
]

steps-print :
    (ts ops : List Text)
    → all_tokens ts ≡ true
    → steps (between ops) (print ts) ≡ between (ops ++ ts)
unfolding all_tokens print steps
steps-print [] ops h = rw (append-nil ops)
steps-print (t ∷ ts) ops h =
    let (p, k) = and_true (is_token t) (all_tokens ts) h in
    steps-token t (print ts) ops p
    ∙ steps-print ts (ops ++ t ∷ []) k
    ∙ ap between (append_assoc ops (t ∷ []) ts)

-- Operands of the shapes that `parse` returns, written with a space behind each, are read back as
-- they were.
pub parse-print : (ts : List Text) → all_tokens ts ≡ true → parse (print ts) ≡ ts
unfolding parse drop_both drop_string_to_buffer
parse-print ts h = ap drop_both (steps-print ts [] h)
