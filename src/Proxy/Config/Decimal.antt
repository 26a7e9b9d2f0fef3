-- ===== src/Proxy/Config/Decimal.antt =====
-- `stoi` reads the decimal digits of a number back.
use sphere_multithreading_cp.Prelude.{
  Bool, Bool-cases, [], arith, false, if◌then◌else◌, inl, inr, ltb, ok, pos, refl, suc, true, zero,
  ℕ, ◌%◌, ◌&&◌, ◌*◌, ◌++◌, ◌+◌, ◌-◌, ◌/◌, ◌<◌, ◌==◌, ◌∷◌, ◌≡◌,
}
use sphere_multithreading_cp.Shell.{Text}
use sphere_multithreading_cp.Proxy.Config.{is_digit, read_digits, read_int, stoi}

-- The digits of `n`, at most so many.
pub decimal : ℕ → ℕ → Text
decimal zero n = []
decimal (suc k) n =
    let front = decimal k (n / 10) in
    if ltb n 10 then (n + b'0') ∷ [] else front ++ (n % 10 + b'0') ∷ []

abbrev power : ℕ → ℕ
power zero = 1
power (suc k) = 10 * power k

unfoldable pub all_digits : Text → Bool
all_digits [] = true
all_digits (c ∷ cs) = is_digit c && all_digits cs

all_digits-append :
    (s t : Text) → all_digits s ≡ true → all_digits t ≡ true → all_digits (s ++ t) ≡ true
unfolding all_digits
all_digits-append [] t h k = k
all_digits-append (c ∷ s) t h k = ground (arith, all_digits-append s t)

read_digits-append :
    (s : Text) (n d : ℕ)
    → all_digits s ≡ true
    → d < 10
    → read_digits n (s ++ (d + b'0') ∷ []) ≡ read_digits n s * 10 + d
unfolding read_digits all_digits
read_digits-append [] n d h l = ground arith
read_digits-append (c ∷ s) n d h l = ground (arith, read_digits-append s (n * 10 + (c - b'0')) d)

pub decimal-all_digits : (k n : ℕ) → all_digits (decimal k n) ≡ true
unfolding decimal
decimal-all_digits zero n = unfold all_digits in refl
decimal-all_digits (suc k) n = elim (Bool-cases (ltb n 10)) [
  | inl small ↦ rw small (unfold all_digits in ground arith)
  | inr large ↦ rw large (
      all_digits-append (decimal k (n / 10)) ((n % 10 + b'0') ∷ []) (decimal-all_digits k (n / 10))
        (unfold all_digits in ground arith))
]

read_digits-decimal : (k n : ℕ) → n < power (suc k) → read_digits 0 (decimal (suc k) n) ≡ n
unfolding decimal
read_digits-decimal zero n l =
    let small : ltb n 10 ≡ true = ground arith in rw small (unfold read_digits in ground arith)
read_digits-decimal (suc k) n l = elim (Bool-cases (ltb n 10)) [
  | inl small ↦ rw small (unfold read_digits in ground arith)
  | inr large ↦
      rw
        (
          large,
          read_digits-append (decimal (suc k) (n / 10)) 0 (n % 10)
              (decimal-all_digits (suc k) (n / 10)) (omega arith),
          read_digits-decimal k (n / 10) (omega arith),
        )
        (omega arith)
]

decimal-head : (k n : ℕ) → (c : ℕ) × (cs : Text) × (decimal (suc k) n ≡ c ∷ cs)
unfolding decimal
decimal-head zero n = elim (Bool-cases (ltb n 10)) [
  | inl e ↦ rw e (_, _, refl)
  | inr e ↦ rw e (_, _, refl)
]
decimal-head (suc k) n = elim (Bool-cases (ltb n 10)) [
  | inl e ↦ rw e (_, _, refl)
  | inr e ↦ let (c, cs, h) = decimal-head k (n / 10) in rw (e, h) (_, _, refl)
]

-- A port as `print` writes it.
abbrev pub decimal5 : ℕ → Text
decimal5 n = decimal 5 n

stoi-digits :
    (c : ℕ) (cs : Text) (n : ℕ)
    → is_digit c ≡ true
    → read_digits 0 (c ∷ cs) ≡ n
    → n < 65_536
    → stoi (c ∷ cs) ≡ ok (pos n)
unfolding stoi read_int
stoi-digits c cs n d v l =
    let minus : (c == b'-') ≡ false = ground arith in
    let plus : (c == b'+') ≡ false = ground arith in
    let fits : ltb 2_147_483_647 n ≡ false = ground arith in rw (minus, plus, read_int, d, v, fits)

first_digit : (c : ℕ) (cs : Text) → all_digits (c ∷ cs) ≡ true → is_digit c ≡ true
unfolding all_digits
first_digit c cs h = ground arith

pub decimal5-head : (n : ℕ) → (c : ℕ) × (cs : Text) × (decimal5 n ≡ c ∷ cs)
decimal5-head n = decimal-head 4 n

pub stoi-decimal5 : (n : ℕ) → n < 65_536 → stoi (decimal5 n) ≡ ok (pos n)
stoi-decimal5 n l =
    let (c, cs, e) = decimal-head 4 n in
    rw e (
      stoi-digits c cs n (first_digit c cs (rw e at (decimal-all_digits 5 n)))
        (rw (← e) (read_digits-decimal 4 n (omega arith))) l)

-- No character of the text fails the test.
unfoldable pub holds_for : (ℕ → Bool) → Text → Bool
holds_for p [] = true
holds_for p (c ∷ cs) = p c && holds_for p cs

pub holds_for-digits :
    (p : ℕ → Bool) (t : Text)
    → ((c : ℕ) → is_digit c ≡ true → p c ≡ true)
    → all_digits t ≡ true
    → holds_for p t ≡ true
unfolding holds_for all_digits
holds_for-digits p [] k h = refl
holds_for-digits p (c ∷ cs) k h =
    let ih = holds_for-digits p cs k (ground arith) in rw (k c (ground arith)) ih

pub holds_for-append :
    (p : ℕ → Bool) (s t : Text)
    → holds_for p s ≡ true
    → holds_for p t ≡ true
    → holds_for p (s ++ t) ≡ true
unfolding holds_for
holds_for-append p [] t h k = k
holds_for-append p (c ∷ s) t h k = ground (arith, holds_for-append p s t)
