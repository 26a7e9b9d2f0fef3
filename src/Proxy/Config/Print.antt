-- ===== src/Proxy/Config/Print.antt =====
-- Entries written as lines, and what the parser makes of one line.
use sphere_multithreading_cp.Prelude.{
  ==_refl, All, Bool, List, [], append-nil, append_assoc, arith, false, none, not, ok, pos, refl,
  some, true, ℕ, ◌&&◌, ◌++◌, ◌<◌, ◌==◌, ◌>>=◌, ◌∷◌, ◌≡◌,
}
use sphere_multithreading_cp.Shell.{Text}
use sphere_multithreading_cp.Shell.Parser.{is_space}
use sphere_multithreading_cp.Proxy.Config.{
  Addr, ParserConfigFile, getline, is_digit, stoi, to_port, read_ip, read_port, read_addrs,
  parse_line, strip, add_port,
}
use sphere_multithreading_cp.Proxy.Config.Decimal.{
  all_digits, decimal5, decimal-all_digits, stoi-decimal5, holds_for, holds_for-digits,
}

-- An address is written as `ip:port`.
unfoldable pub print_addr : Addr → Text
print_addr (ip, port) = ip ++ (b':' ∷ decimal5 port)

-- The addresses of a line, each behind a comma.
unfoldable pub print_addrs : List Addr → Text
print_addrs [] = []
print_addrs (a ∷ addrs) = b',' ∷ (print_addr a ++ print_addrs addrs)

unfoldable pub print_line : ℕ × List Addr → Text
print_line (port, addrs) = decimal5 port ++ print_addrs addrs

unfoldable pub print_config : List (ℕ × List Addr) → Text
print_config [] = []
print_config (e ∷ es) = print_line e ++ (10 ∷ print_config es)

-- What the file means: each line in turn.
unfoldable pub config_of : ParserConfigFile → List (ℕ × List Addr) → ParserConfigFile
config_of c [] = c
config_of c (e ∷ es) = config_of (add_port e c) es

-- An address that can be written: no colon and no white space in `ip`, and a port of 16 bits.
unfoldable pub plain : ℕ → Bool
plain c = not (c == b':') && not (is_space c)

unfoldable pub IsAddr : Addr → Type 0
IsAddr (ip, port) = (holds_for plain ip ≡ true) × (port < 65_536)

unfoldable pub IsEntry : ℕ × List Addr → Type 0
IsEntry (port, addrs) = (port < 65_536) × All IsAddr addrs

getline-stop :
    (d : ℕ) (t rest : Text)
    → holds_for (λ c. not (c == d)) t ≡ true
    → getline d (t ++ d ∷ rest) ≡ (t, some rest)
unfolding getline holds_for
getline-stop d [] rest h = rw (==_refl d)
getline-stop d (c ∷ t) rest h =
    let other : (c == d) ≡ false = ground arith in rw (other, getline-stop d t rest (ground arith))

getline-end : (d : ℕ) (t : Text) → holds_for (λ c. not (c == d)) t ≡ true → getline d t ≡ (t, none)
unfolding getline holds_for
getline-end d [] h = refl
getline-end d (c ∷ t) h =
    let other : (c == d) ≡ false = ground arith in rw (other, getline-end d t (ground arith))

read_ip-colon :
    (ip port t rest : Text)
    → holds_for plain t ≡ true
    → read_ip ip port (t ++ b':' ∷ rest) ≡ read_port (ip ++ t) [] rest
unfolding read_ip holds_for plain
read_ip-colon ip port [] rest h = rw (append-nil ip)
read_ip-colon ip port (c ∷ t) rest h =
    let other : (c == b':') ≡ false = ground arith in
    rw (other, read_ip-colon (ip ++ c ∷ []) port t rest (ground arith), append_assoc ip (c ∷ []) t)

read_port-comma :
    (ip port t rest : Text)
    → all_digits t ≡ true
    → read_port ip port (t ++ b',' ∷ rest) ≡ (
        stoi (port ++ t) >>= λ n.
        read_ip [] (port ++ t) rest >>= λ addrs. ok ((ip, to_port n) ∷ addrs))
unfolding read_port all_digits
read_port-comma ip port [] rest h = rw (append-nil port)
read_port-comma ip port (c ∷ t) rest h =
    let other : (c == b',') ≡ false = ground arith in
    rw (
      other,
      read_port-comma ip (port ++ c ∷ []) t rest (ground arith),
      append_assoc port (c ∷ []) t,
    )

read_port-end :
    (ip port t : Text)
    → all_digits t ≡ true
    → read_port ip port t ≡ (stoi (port ++ t) >>= λ n. ok ((ip, to_port n) ∷ []))
unfolding read_port all_digits
read_port-end ip port [] h = rw (append-nil port)
read_port-end ip port (c ∷ t) h =
    let other : (c == b',') ≡ false = ground arith in
    rw (other, read_port-end ip (port ++ c ∷ []) t (ground arith), append_assoc port (c ∷ []) t)

to_port-small : (n : ℕ) → n < 65_536 → to_port (pos n) ≡ n
unfolding to_port
to_port-small n h = omega arith

read_ip-print :
    (a : Addr) (addrs : List Addr) (port : Text)
    → IsAddr a
    → All IsAddr addrs
    → read_ip [] port (print_addr a ++ print_addrs addrs) ≡ ok (a ∷ addrs)
unfolding print_addr print_addrs IsAddr
read_ip-print (ip, n) [] port h k = rw (
  append-nil (ip ++ (b':' ∷ decimal5 n)),
  read_ip-colon [] port ip (decimal5 n) h.0,
  read_port-end ip [] (decimal5 n) (decimal-all_digits 5 n),
  stoi-decimal5 n h.1,
  to_port-small n h.1,
)
read_ip-print (ip, n) (b ∷ addrs) port h k = rw (
  append_assoc ip (b':' ∷ decimal5 n) (print_addrs (b ∷ addrs)),
  read_ip-colon [] port ip (decimal5 n ++ print_addrs (b ∷ addrs)) h.0,
  print_addrs,
  read_port-comma ip [] (decimal5 n) (print_addr b ++ print_addrs addrs) (decimal-all_digits 5 n),
  stoi-decimal5 n h.1,
  read_ip-print b addrs (decimal5 n) k.0 k.1,
  to_port-small n h.1,
)

pub stripped : (t : Text) → holds_for (λ c. not (is_space c)) t ≡ true → strip t ≡ t
unfolding strip holds_for
stripped [] h = refl
stripped (c ∷ t) h =
    let other : is_space c ≡ false = ground arith in rw (other, stripped t (ground arith)) refl

pub digits_hold :
    (p : ℕ → Bool) (n : ℕ)
    → ((c : ℕ) → is_digit c ≡ true → p c ≡ true)
    → holds_for p (decimal5 n) ≡ true
digits_hold p n k = holds_for-digits p (decimal5 n) k (decimal-all_digits 5 n)

no_comma : (n : ℕ) → holds_for (λ c. not (c == b',')) (decimal5 n) ≡ true
no_comma n = digits_hold (λ c. not (c == b',')) n (λ c h. ground arith)

pub parse_line-print : (e : ℕ × List Addr) → IsEntry e → parse_line (print_line e) ≡ ok e
unfolding parse_line print_line read_addrs IsEntry print_addrs
parse_line-print (port, []) h = rw (
  append-nil (decimal5 port),
  getline-end b',' (decimal5 port) (no_comma port),
  stoi-decimal5 port h.0,
  to_port-small port h.0,
)
parse_line-print (port, a ∷ addrs) h = rw (
  getline-stop b',' (decimal5 port) (print_addr a ++ print_addrs addrs) (no_comma port),
  stoi-decimal5 port h.0,
  read_ip-print a addrs (decimal5 port) h.1.0 h.1.1,
  to_port-small port h.0,
)
