-- ===== src/Proxy/Config/RoundTrip.antt =====
-- `parse_config_file` reads the entries back that a file was written from.
use sphere_multithreading_cp.Prelude.{
  All, List, [], ap, append-nil, append_assoc, arith, false, is_empty, not, ok, refl, sym, true, ℕ,
  ◌++◌, ◌==◌, ◌∙◌, ◌∷◌, ◌≡◌,
}
use sphere_multithreading_cp.Shell.{Text}
use sphere_multithreading_cp.Shell.Parser.{is_space}
use sphere_multithreading_cp.Proxy.Config.{
  Addr, ParserConfigFile, all_lines, strip, add_port, load, no_ports, parse_config_file,
}
use sphere_multithreading_cp.Proxy.Config.Decimal.{
  decimal5, decimal5-head, holds_for, holds_for-append,
}
use sphere_multithreading_cp.Proxy.Config.Print.{
  stripped, digits_hold, parse_line-print, print_addr, print_addrs, print_line, print_config,
  config_of, plain, IsAddr, IsEntry,
}

-- What is written holds no white space but for the line breaks.
Solid : Text → Type 0
Solid t = holds_for (λ c. not (is_space c)) t ≡ true

decimal5-Solid : (n : ℕ) → Solid (decimal5 n)
unfolding Solid is_space
decimal5-Solid n = digits_hold (λ c. not (is_space c)) n (λ c h. ground arith)

plain-Solid : (t : Text) → holds_for plain t ≡ true → Solid t
unfolding Solid plain holds_for
plain-Solid [] h = refl
plain-Solid (c ∷ t) h = ground (arith, plain-Solid t)

Solid-cons : (c : ℕ) (t : Text) → is_space c ≡ false → Solid t → Solid (c ∷ t)
unfolding Solid holds_for
Solid-cons c t e h = rw e h

print_addr-Solid : (a : Addr) → IsAddr a → Solid (print_addr a)
unfolding Solid print_addr IsAddr is_space
print_addr-Solid (ip, n) h =
    holds_for-append (λ c. not (is_space c)) ip (b':' ∷ decimal5 n) (plain-Solid ip h.0)
      (Solid-cons b':' (decimal5 n) refl (decimal5-Solid n))

print_addrs-Solid : (addrs : List Addr) → All IsAddr addrs → Solid (print_addrs addrs)
unfolding Solid print_addrs is_space
print_addrs-Solid [] h = unfold holds_for in refl
print_addrs-Solid (a ∷ addrs) h = Solid-cons b',' (print_addr a ++ print_addrs addrs) refl (
    holds_for-append (λ c. not (is_space c)) (print_addr a) (print_addrs addrs)
      (print_addr-Solid a h.0) (print_addrs-Solid addrs h.1))

print_line-Solid : (e : ℕ × List Addr) → IsEntry e → Solid (print_line e)
unfolding Solid print_line IsEntry
print_line-Solid (port, addrs) h =
    holds_for-append (λ c. not (is_space c)) (decimal5 port) (print_addrs addrs)
      (decimal5-Solid port) (print_addrs-Solid addrs h.1)

-- A line break ends a line.
all_lines-break :
    (t rest : Text)
    → holds_for (λ c. not (c == 10)) t ≡ true
    → all_lines 10 (t ++ 10 ∷ rest) ≡ t ∷ all_lines 10 rest
unfolding all_lines holds_for
all_lines-break [] rest h = refl
all_lines-break (c ∷ t) rest h =
    let other : (c == 10) ≡ false = ground arith in
    rw (other, all_lines-break t rest (ground arith))

Solid-one_line : (t : Text) → Solid t → holds_for (λ c. not (c == 10)) t ≡ true
unfolding Solid holds_for is_space
Solid-one_line [] h = refl
Solid-one_line (c ∷ t) h = ground (arith, Solid-one_line t)

print_line-head : (e : ℕ × List Addr) → is_empty (print_line e) ≡ false
unfolding print_line
print_line-head (port, addrs) = let (c, cs, h) = decimal5-head port in rw h refl

load-print :
    (c : ParserConfigFile) (es : List (ℕ × List Addr)) (rest : Text)
    → All IsEntry es
    → load c (all_lines 10 (print_config es ++ rest)) ≡ load (config_of c es) (all_lines 10 rest)
unfolding print_config config_of Solid load
load-print c [] rest h = refl
load-print c (e ∷ es) rest h = rw (
  append_assoc (print_line e) (10 ∷ print_config es) rest,
  all_lines-break (print_line e) (print_config es ++ rest)
      (Solid-one_line (print_line e) (print_line-Solid e h.0)),
  load,
  stripped (print_line e) (print_line-Solid e h.0),
  print_line-head e,
  parse_line-print e h.0,
  load-print (add_port e c) es rest h.1,
)

-- A file that is written from entries is read as they say, in their order, the later entry of a port
-- over the earlier. Ports have 16 bits, and an `ip` has no colon and no white space.
pub parse_config_file-print :
    (es : List (ℕ × List Addr))
    → All IsEntry es
    → parse_config_file (print_config es) ≡ ok (config_of no_ports es)
unfolding parse_config_file
parse_config_file-print es h =
    ap (λ t. load no_ports (all_lines 10 t)) (sym (append-nil (print_config es)))
    ∙ load-print no_ports es [] h
    ∙ unfold load all_lines strip in refl
