-- ===== src/Proxy/Config/Tests.antt =====
-- p3: a file of two ports.
use sphere_multithreading_cp.Prelude.{All, List, [], arith, ok, refl, ℕ, ◌∷◌, ◌≡◌}
use sphere_multithreading_cp.Shell.Parser.{is_space}
use sphere_multithreading_cp.Proxy.Config.{Addr, no_ports, parse_config_file}
use sphere_multithreading_cp.Proxy.Config.Decimal.{holds_for}
use sphere_multithreading_cp.Proxy.Config.Print.{plain, IsAddr, IsEntry, print_config, config_of}
use sphere_multithreading_cp.Proxy.Config.RoundTrip.{parse_config_file-print}

-- "1.2:80"
abbrev pub addr80 : Addr
addr80 = (b'1' ∷ b'.' ∷ b'2' ∷ [], 80)

abbrev pub entries : List (ℕ × List Addr)
entries = (8080, addr80 ∷ []) ∷ (70, []) ∷ []

pub entries-IsEntry : All IsEntry entries
unfolding IsEntry IsAddr plain holds_for is_space
entries-IsEntry = ((omega arith, ((refl, omega arith), tt)), ((omega arith, tt), tt))

parse_config_file-print_example :
    parse_config_file (print_config entries) ≡ ok (config_of no_ports entries)
parse_config_file-print_example = parse_config_file-print entries entries-IsEntry
