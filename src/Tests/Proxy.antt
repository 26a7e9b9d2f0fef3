-- ===== src/Tests/Proxy.antt =====
-- p3: the listeners of a file of two ports.
use sphere_multithreading_cp.Prelude.{ok, refl, ◌≡◌}
use sphere_multithreading_cp.Proxy.Config.{ParserConfigFile, parse_config_file}
use sphere_multithreading_cp.Proxy.Config.Print.{print_config}
use sphere_multithreading_cp.Proxy.Config.Tests.{entries, entries-IsEntry}
use sphere_multithreading_cp.Proxy.Listener.{listeners, listeners-print}

listeners-print_example :
    (c : ParserConfigFile) × (parse_config_file (print_config entries) ≡ ok c)
    × (listeners c ≡ entries)
listeners-print_example = listeners-print entries entries-IsEntry (refl, (refl, tt))
