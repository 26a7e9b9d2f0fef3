-- ===== src/Shell/Parser/Shapes.antt =====
-- The shapes of a token, and the state of the parser between two characters.
use sphere_multithreading_cp.Prelude.{
  ==_refl, Bool, List, [], arith, false, is_empty, not, refl, true, ℕ, ◌&&◌, ◌++◌, ◌==◌, ◌||◌, ◌∷◌,
  ◌≡◌, ◌⊎◌,
}
use sphere_multithreading_cp.Shell.{Text}
use sphere_multithreading_cp.Shell.Parser.{
  State, is_space, is_single, is_op_char, is_quote, drop_string_to_buffer, drop_both,
}

-- A character of a plain word.
unfoldable pub is_plain : ℕ → Bool
is_plain c = not (is_space c || (is_single c || (is_op_char c || is_quote c)))

-- Every character passes the test.
unfoldable pub all : (ℕ → Bool) → Text → Bool
all p [] = true
all p (c ∷ cs) = p c && all p cs

-- `qs` ends with the quote `q` and has no other.
unfoldable pub closes : ℕ → Text → Bool
closes q [] = false
closes q (c ∷ []) = q == c
closes q (c ∷ d ∷ cs) = not (q == c) && closes q (d ∷ cs)

-- A plain word, a run of `&` and `|`, one of `<`, `>` and `;`, or a text between two quotes.
unfoldable pub is_token : Text → Bool
is_token [] = false
is_token (c ∷ cs) =
    all is_plain (c ∷ cs)
    || (all is_op_char (c ∷ cs) || ((is_single c && is_empty cs) || (is_quote c && closes c cs)))

unfoldable pub all_tokens : List Text → Bool
all_tokens [] = true
all_tokens (t ∷ ts) = is_token t && all_tokens ts

-- An open quote: its text so far has no second quote.
unfoldable pub IsOpen : Text → Type 0
IsOpen [] = Unit
IsOpen (q ∷ qs) = (is_quote q ≡ true) × (all (λ c. not (q == c)) qs ≡ true)

-- Between two characters `cmd` and `op` are not both filled, and neither is beside an open quote.
pub record IsValid (s : State) : Type 0 where
  pub tokens : all_tokens s.operands ≡ true
  pub word : all is_plain s.cmd ≡ true
  pub operator : all is_op_char s.op ≡ true
  pub one : (s.cmd ≡ []) ⊎ (s.op ≡ [])
  pub alone : (s.quote ≡ []) ⊎ ((s.cmd ≡ []) × (s.op ≡ []))
  pub open_quote : IsOpen s.quote

pub all_tokens-append :
    (xs ys : List Text) → all_tokens (xs ++ ys) ≡ (all_tokens xs && all_tokens ys)
unfolding all_tokens
all_tokens-append [] ys = refl
all_tokens-append (x ∷ xs) ys = ground (arith, all_tokens-append xs ys)

pub all-append : (p : ℕ → Bool) (xs ys : Text) → all p (xs ++ ys) ≡ (all p xs && all p ys)
unfolding all
all-append p [] ys = refl
all-append p (x ∷ xs) ys = ground (arith, all-append p xs ys)

pub drop-word :
    (s : Text) (ops : List Text)
    → all is_plain s ≡ true
    → all_tokens ops ≡ true
    → all_tokens (drop_string_to_buffer s ops) ≡ true
unfolding drop_string_to_buffer all_tokens is_token
drop-word [] ops h k = k
drop-word (x ∷ s) ops h k = rw (all_tokens-append ops _, k, h)

pub drop-operator :
    (s : Text) (ops : List Text)
    → all is_op_char s ≡ true
    → all_tokens ops ≡ true
    → all_tokens (drop_string_to_buffer s ops) ≡ true
unfolding drop_string_to_buffer all_tokens is_token
drop-operator [] ops h k = k
drop-operator (x ∷ s) ops h k = ground (arith, all_tokens-append ops ((x ∷ s) ∷ []))

pub drop_both-tokens : (s : State) → IsValid s → all_tokens (drop_both s) ≡ true
unfolding drop_both
drop_both-tokens s v = drop-operator s.op _ v.operator (drop-word s.cmd s.operands v.word v.tokens)

pub closes-append :
    (q : ℕ) (qs : Text) → all (λ c. not (q == c)) qs ≡ true → closes q (qs ++ q ∷ []) ≡ true
unfolding closes all
closes-append q [] h = ==_refl q
closes-append q (c ∷ []) h = ground arith
closes-append q (c ∷ d ∷ cs) h = ground (arith, closes-append q (d ∷ cs))

pub is_token-quote :
    (q : ℕ) (qs : Text)
    → is_quote q ≡ true
    → all (λ c. not (q == c)) qs ≡ true
    → is_token (q ∷ qs ++ q ∷ []) ≡ true
unfolding is_token
is_token-quote q qs h k = ground (arith, closes-append q qs)

pub is_token-single : (c : ℕ) → is_single c ≡ true → is_token (c ∷ []) ≡ true
unfolding is_token
is_token-single c h = ground arith

pub push_token :
    (ops : List Text) (t : Text)
    → all_tokens ops ≡ true
    → is_token t ≡ true
    → all_tokens (ops ++ t ∷ []) ≡ true
unfolding all_tokens
push_token ops t h k = rw (all_tokens-append ops (t ∷ []), h, k)

pub cleared :
    (s : State) (q : ℕ) (qs : Text) → IsValid s → s.quote ≡ q ∷ qs → (s.cmd ≡ []) × (s.op ≡ [])
cleared s q qs v e = ground (arith, v.alone)
