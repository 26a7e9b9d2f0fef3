-- ===== src/Proxy/Config.antt =====
-- p3/config_parser.h and p3/config_parser.cpp: the file of the proxy, one port to a line with the
-- addresses behind it.
pub mod Decimal
pub mod Print
pub mod RoundTrip
pub mod Tests
use sphere_multithreading_cp.Prelude.{
  Bool, List, Option, Result, [], err, if◌then◌else◌, is_empty, leb, ltb, negsuc, none, ok, pos,
  some, suc, take, zero, ℕ, ℤ, ◌%◌, ◌&&◌, ◌*◌, ◌++◌, ◌+◌, ◌-◌, ◌==◌, ◌>>=◌, ◌^◌, ◌∷◌,
}
use sphere_multithreading_cp.Shell.{Text}
use sphere_multithreading_cp.Shell.Parser.{is_space}
use sphere_multithreading_cp.Table.{update}

-- What `std::stoi` throws.
pub data ConfigError : Type 0 where
  invalid_argument out_of_range : ConfigError

abbrev pub Addr : Type 0
Addr = Text × ℕ

pub record ParserConfigFile : Type 0 where
  pub config_map : ℕ → List Addr
  pub ports : List ℕ

-- What `getline` takes up to the delimiter, and the rest; `none` is the end of the stream.
pub getline : ℕ → Text → Text × Option Text
getline d [] = ([], none)
getline d (c ∷ cs) =
    let (line, rest) = getline d cs in if c == d then ([], some cs) else (c ∷ line, rest)

-- What `getline` takes, call after call, until the end of the stream.
pub all_lines : ℕ → Text → List Text
all_lines d [] = [] ∷ []
all_lines d (c ∷ cs) =
    let rest = all_lines d cs in
    if c == d then [] ∷ rest else elim rest [ [] ↦ (c ∷ []) ∷ [] | l ∷ ls ↦ (c ∷ l) ∷ ls ]

abbrev pub is_digit : ℕ → Bool
is_digit c = leb b'0' c && leb c b'9'

pub read_digits : ℕ → Text → ℕ
read_digits n [] = n
read_digits n (c ∷ cs) =
    let rest = read_digits (n * 10 + (c - b'0')) cs in if is_digit c then rest else n

-- The digits behind the sign; `limit` is the largest value.
pub read_int : ℕ → Text → Result ConfigError ℕ
read_int limit [] = err invalid_argument
read_int limit (c ∷ cs) =
    if is_digit c
    then if ltb limit (read_digits 0 (c ∷ cs))
      then err out_of_range
      else ok (read_digits 0 (c ∷ cs))
    else err invalid_argument

abbrev pub negative : ℕ → ℤ
negative zero = pos zero
negative (suc n) = negsuc n

-- `std::stoi` of a text without white space.
pub stoi : Text → Result ConfigError ℤ
stoi [] = err invalid_argument
stoi (c ∷ cs) =
    if c == b'-'
    then (read_int 2_147_483_648 cs >>= λ n. ok (negative n))
    else if c == b'+'
    then (read_int 2_147_483_647 cs >>= λ n. ok (pos n))
    else (read_int 2_147_483_647 (c ∷ cs) >>= λ n. ok (pos n))

-- The conversion to `unsigned short`.
pub to_port : ℤ → ℕ
to_port (pos n) = n % 2 ^ 16
to_port (negsuc n) = (2 ^ 16 - 1) - n % 2 ^ 16

-- The inner loop. `read_ip` is in the first `getline`, `read_port` in the second, each with what it
-- has so far. At the end of the stream the second one leaves `str_port` as it was.
mutual
  pub read_ip : (str_ip str_port : Text) → Text → Result ConfigError (List Addr)
  read_ip ip port [] = stoi port >>= λ n. ok ((ip, to_port n) ∷ [])
  read_ip ip port (c ∷ cs) =
      let stop = read_port ip [] cs in
      let go_on = read_ip (ip ++ c ∷ []) port cs in if c == b':' then stop else go_on

  pub read_port : (str_ip str_port : Text) → Text → Result ConfigError (List Addr)
  read_port ip port [] = stoi port >>= λ n. ok ((ip, to_port n) ∷ [])
  read_port ip port (c ∷ cs) =
      let stop =
        (stoi port >>= λ n. read_ip [] port cs >>= λ addrs. ok ((ip, to_port n) ∷ addrs)) in
      let go_on = read_port ip (port ++ c ∷ []) cs in if c == b',' then stop else go_on

-- The addresses behind the port, if the line goes on.
pub read_addrs : Text → Option Text → Result ConfigError (List Addr)
read_addrs port none = ok []
read_addrs port (some rest) = read_ip [] port rest

-- The body of the outer loop for a line that is not empty.
unfoldable pub parse_line : Text → Result ConfigError (ℕ × List Addr)
parse_line line =
    let (port, rest) = getline b',' line in
    stoi port >>= λ n. read_addrs port rest >>= λ addrs. ok (to_port n, addrs)

-- `erase(remove_if(..., isspace))`
unfoldable pub strip : Text → Text
strip [] = []
strip (c ∷ cs) = let rest = strip cs in if is_space c then rest else c ∷ rest

unfoldable pub add_port : ℕ × List Addr → ParserConfigFile → ParserConfigFile
add_port (port, addrs) c = record {
  config_map = update c.config_map port addrs;
  ports = c.ports ++ port ∷ [];
}

-- The outer loop.
pub load : ParserConfigFile → List Text → Result ConfigError ParserConfigFile
load c [] = ok c
load c (l ∷ ls) =
    let skip = load c ls in
    let take = (parse_line (strip l) >>= λ p. load (add_port p c) ls) in
    if is_empty (strip l) then skip else take

abbrev pub no_ports : ParserConfigFile
no_ports = record { config_map = λ _. []; ports = [] }

pub parse_config_file : Text → Result ConfigError ParserConfigFile
parse_config_file config = load no_ports (all_lines 10 config)
