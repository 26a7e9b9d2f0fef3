-- ===== src/Shell/Parser/Tokens.antt =====
-- What an operand of `Parser::parse` can look like.
use sphere_multithreading_cp.Prelude.{
  ==_iff, Bool-cases, [], arith, false, inl, inr, not, refl, subst, true, ℕ, ◌++◌, ◌==◌, ◌∷◌, ◌≡◌,
}
use sphere_multithreading_cp.Shell.{Text}
use sphere_multithreading_cp.Shell.Parser.{
  State, is_space, is_single, is_op_char, is_quote, drop_both, in_quote, outside, step_at, step,
  steps, initial, parse,
}
use sphere_multithreading_cp.Shell.Parser.Shapes.{
  is_plain, all, all_tokens, IsOpen, IsValid, all-append, drop-word, drop-operator,
  drop_both-tokens, is_token-quote, is_token-single, push_token, cleared,
}

all_other :
    (c q : ℕ) (qs : Text)
    → (q == c) ≡ false
    → all (λ d. not (q == d)) qs ≡ true
    → all (λ d. not (q == d)) (qs ++ c ∷ []) ≡ true
unfolding all
all_other c q qs h k = rw (all-append (λ d. not (q == d)) qs (c ∷ []), k, h)

in_quote-IsValid :
    (c q : ℕ) (qs : Text) (s : State) → IsValid s → s.quote ≡ q ∷ qs → IsValid (in_quote c q qs s)
unfolding in_quote IsOpen
in_quote-IsValid c q qs s v e =
    let (e1, e2) = cleared s q qs v e in
    let o : IsOpen (q ∷ qs) = subst IsOpen e v.open_quote in
    elim (Bool-cases (q == c)) [
      | inl same ↦ rw same (record {
        tokens =
            push_token s.operands _ v.tokens
              (rw (← ((==_iff q c).0 same)) (is_token-quote q qs o.0 o.1));
        word = v.word;
        operator = v.operator;
        one = v.one;
        alone = inl refl;
        open_quote = tt;
      })
      | inr other ↦ rw other (record {
        tokens = v.tokens;
        word = v.word;
        operator = v.operator;
        one = v.one;
        alone = inr (e1, e2);
        open_quote = (o.0, all_other c q qs other o.1);
      })
    ]

plain_char :
    (c : ℕ)
    → is_space c ≡ false
    → is_single c ≡ false
    → is_op_char c ≡ false
    → is_quote c ≡ false
    → is_plain c ≡ true
unfolding is_plain
plain_char c h1 h2 h3 h4 = ground arith

outside-IsValid : (c : ℕ) (s : State) → IsValid s → s.quote ≡ [] → IsValid (outside c s)
unfolding outside all IsOpen all_tokens
outside-IsValid c s v e = elim (Bool-cases (is_space c)) [
  | inl h ↦ rw h (record {
    tokens = drop_both-tokens s v;
    word = refl;
    operator = refl;
    one = inl refl;
    alone = inl e;
    open_quote = v.open_quote;
  })
  | inr h1 ↦ rw h1 (elim (Bool-cases (is_single c)) [
    | inl h ↦ rw h (record {
      tokens = push_token (drop_both s) _ (drop_both-tokens s v) (is_token-single c h);
      word = refl;
      operator = refl;
      one = inl refl;
      alone = inl e;
      open_quote = v.open_quote;
    })
    | inr h2 ↦ rw h2 (elim (Bool-cases (is_op_char c)) [
      | inl h ↦ rw h (record {
        tokens = drop-word s.cmd s.operands v.word v.tokens;
        word = refl;
        operator = rw (all-append is_op_char s.op (c ∷ []), v.operator, h);
        one = inl refl;
        alone = inl e;
        open_quote = v.open_quote;
      })
      | inr h3 ↦ rw h3 (elim (Bool-cases (is_quote c)) [
        | inl h ↦ rw h (record {
          tokens = drop_both-tokens s v;
          word = refl;
          operator = refl;
          one = inl refl;
          alone = inr (refl, refl);
          open_quote = (h, refl);
        })
        | inr h4 ↦ rw h4 (record {
          tokens = drop-operator s.op s.operands v.operator v.tokens;
          word = rw (all-append is_plain s.cmd (c ∷ []), v.word, plain_char c h1 h2 h3 h4);
          operator = refl;
          one = inr refl;
          alone = inl e;
          open_quote = v.open_quote;
        })
      ])
    ])
  ])
]

pub step_at-IsValid :
    (q : Text) (c : ℕ) (s : State) → IsValid s → s.quote ≡ q → IsValid (step_at q c s)
unfolding step_at
step_at-IsValid [] c s v e = outside-IsValid c s v e
step_at-IsValid (q ∷ qs) c s v e = in_quote-IsValid c q qs s v e

pub steps-IsValid : (s : State) (cs : Text) → IsValid s → IsValid (steps s cs)
unfolding steps step
steps-IsValid s [] v = v
steps-IsValid s (c ∷ cs) v = steps-IsValid (step s c) cs (step_at-IsValid s.quote c s v refl)

pub initial-IsValid : IsValid initial
unfolding all all_tokens IsOpen
initial-IsValid = record {
  tokens = refl;
  word = refl;
  operator = refl;
  one = inl refl;
  alone = inl refl;
  open_quote = tt;
}

-- Every operand that `parse` returns is a plain word, a run of `&` and `|`, one of `<`, `>` and
-- `;`, or a text between two equal quotes: none is empty, and none mixes these.
pub parse-tokens : (command : Text) → all_tokens (parse command) ≡ true
unfolding parse
parse-tokens command =
    drop_both-tokens (steps initial command) (steps-IsValid initial command initial-IsValid)
