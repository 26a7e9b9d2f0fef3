-- ===== src/Chat/Client/Lines.antt =====
-- A line that the client reads from its terminal, and one that it reads from the server.
use mathlib.Core.List.{flatten}
use mathlib.Core.Bool.{false≢true}
use sphere_multithreading_cp.Prelude.{
  All, Bool, List, Option, [], ap, append_assoc, arith, false, flatten-append, is_empty, last?,
  length, map, none, not, ok, refl, some, true, ℕ, ◌&&◌, ◌++◌, ◌==◌, ◌∷◌, ◌≡◌,
}
use sphere_multithreading_cp.Shell.{Text}
use sphere_multithreading_cp.Chat.{
  no_message, append, clear, size, printed, c_string, Received, ends_line,
}
use sphere_multithreading_cp.Chat.Blocks.{no_nul, c_string-all}
use sphere_multithreading_cp.Chat.Relay.{IsLine, parts_of}
use sphere_multithreading_cp.Chat.Relay.Events.{IsBegun, cut_off, parts}
use sphere_multithreading_cp.Chat.Client.{
  Client, Round, push, take_part, recv_message_from_stdin, recv_message_from_srv, send_message,
  read_stdin, read_server, round, start,
}

-- `fgets` gives some bytes; none is NUL, and a lone line break would be taken for an empty line.
unfoldable pub typed : Text → Bool
typed [] = false
typed (c ∷ cs) = no_nul (c ∷ cs) && not (is_empty cs && (c == 10))

abbrev pub type_line : List Text → Round
type_line ts = record {
  is_failed = false;
  from_stdin = some (map some ts);
  writable = true;
  from_server = none;
}

abbrev pub print_parts : List Received → Round
print_parts rs = record {
  is_failed = false;
  from_stdin = none;
  writable = false;
  from_server = some rs;
}

-- The rounds in which a line comes from the server.
abbrev pub print_line : List (Bool × List Text) → Bool → List Text → List Round
print_line es again ts =
    map (λ e. print_parts (cut_off e.0 e.1)) es ++ print_parts (parts_of again ts) ∷ []

last-some : (c : ℕ) (cs : Text) → (x : ℕ) × (last? (c ∷ cs) ≡ some x)
last-some c [] = (c, refl)
last-some c (d ∷ cs) = last-some d cs

typed-last :
    (t : Text)
    → typed t ≡ true
    → (x : ℕ) × (last? t ≡ some x) × ((length t == 1) && (x == 10) ≡ false) × (c_string t ≡ t)
unfolding typed
typed-last [] h = absurd (false≢true h)
typed-last (c ∷ []) h = (c, refl, ground arith, c_string-all (c ∷ []) (ground arith))
typed-last (c ∷ d ∷ cs) h =
    let (x, e) = last-some d cs in (x, e, ground arith, c_string-all (c ∷ d ∷ cs) (ground arith))

module _ (t : Text) (rs : List (Option Text)) (c : Client) (k : typed t ≡ true) where
  read_part :
      ends_line t ≡ false
      → recv_message_from_stdin (some t ∷ rs) c ≡ recv_message_from_stdin rs (push t c)
  unfolding recv_message_from_stdin take_part ends_line
  read_part h =
      let (x, e, l, s) = typed-last t k in
      let more : (x == 10) ≡ false = (rw (ends_line, e) at h) in
      rw (recv_message_from_stdin, s) (rw (take_part, e, l, more) refl)

  read_end : ends_line t ≡ true → recv_message_from_stdin (some t ∷ rs) c ≡ ok (push t c)
  unfolding recv_message_from_stdin take_part ends_line
  read_end h =
      let (x, e, l, s) = typed-last t k in
      let stop : (x == 10) ≡ true = (rw (ends_line, e) at h) in
      rw (recv_message_from_stdin, s) (rw (take_part, e, l, stop) refl)

recv_stdin-line :
    (ts bs : List Text) (c : Client)
    → IsLine ts
    → All (λ t. typed t ≡ true) ts
    → c.outgoing.blocks ≡ bs
    → recv_message_from_stdin (map some ts) c
      ≡ ok (record c { outgoing = record { blocks = bs ++ ts } })
unfolding IsLine append
recv_stdin-line [] bs c h k e = absurd (false≢true h)
recv_stdin-line (t ∷ []) bs c h k e = rw (read_end t [] c k.0 h, e) refl
recv_stdin-line (t ∷ u ∷ ts) bs c h k e =
    rw
      (
        read_part t (map some (u ∷ ts)) c k.0 h.0,
        recv_stdin-line (u ∷ ts) (bs ++ t ∷ []) (record c { outgoing = append t c.outgoing }) h.1
            k.1 (ap (λ l. l ++ t ∷ []) e),
        append_assoc bs (t ∷ []) (u ∷ ts),
      )
      refl

recv_srv-line :
    (again : Bool) (ts bs : List Text) (c : Client)
    → IsLine ts
    → c.incoming.blocks ≡ bs
    → recv_message_from_srv (parts_of again ts) c
      ≡ ok (record c { incoming = record { blocks = bs ++ ts } })
unfolding recv_message_from_srv IsLine append
recv_srv-line again [] bs c h e = absurd (false≢true h)
recv_srv-line again (t ∷ []) bs c h e = rw (h, e) refl
recv_srv-line again (t ∷ u ∷ ts) bs c h e =
    rw
      (
        h.0,
        recv_srv-line again (u ∷ ts) (bs ++ t ∷ []) (record c { incoming = append t c.incoming })
            h.1 (ap (λ l. l ++ t ∷ []) e),
        append_assoc bs (t ∷ []) (u ∷ ts),
      )
      refl

recv_srv-cut_off :
    (stale : Bool) (ts bs : List Text) (c : Client)
    → IsBegun ts
    → c.incoming.blocks ≡ bs
    → recv_message_from_srv (cut_off stale ts) c
      ≡ ok (record c { incoming = record { blocks = bs ++ ts } })
unfolding recv_message_from_srv IsBegun append
recv_srv-cut_off stale [] bs c h e = absurd (false≢true h)
recv_srv-cut_off true (t ∷ []) bs c h e = rw (h.0, e) refl
recv_srv-cut_off false (t ∷ []) bs c h e = rw (h.0, e) refl
recv_srv-cut_off true (t ∷ u ∷ ts) bs c h e =
    rw
      (
        h.0,
        recv_srv-cut_off true (u ∷ ts) (bs ++ t ∷ []) (record c { incoming = append t c.incoming })
            h.1 (ap (λ l. l ++ t ∷ []) e),
        append_assoc bs (t ∷ []) (u ∷ ts),
      )
      refl
recv_srv-cut_off false (t ∷ u ∷ ts) bs c h e =
    rw
      (
        h.0,
        recv_srv-cut_off false (u ∷ ts) (bs ++ t ∷ []) (record c { incoming = append t c.incoming })
            h.1 (ap (λ l. l ++ t ∷ []) e),
        append_assoc bs (t ∷ []) (u ∷ ts),
      )
      refl

IsLine-some : (ts : List Text) → IsLine ts → (length ts == 0) ≡ false
unfolding IsLine
IsLine-some [] h = absurd (false≢true h)
IsLine-some (t ∷ ts) h = ground arith

pub round-type_line :
    (ts : List Text) (a : Client)
    → IsLine ts
    → All (λ t. typed t ≡ true) ts
    → a.outgoing.blocks ≡ []
    → round (type_line ts) a ≡ ok (record a { outgoing = no_message; sent = a.sent ++ ts })
unfolding round read_stdin read_server send_message size clear
round-type_line ts a h k e = rw (recv_stdin-line ts [] a h k e, IsLine-some ts h) refl

-- What comes in a round is printed with it, whether the line is complete or not.
pub start-print_line :
    (es : List (Bool × List Text)) (again : Bool) (ts : List Text) (b : Client)
    → All (λ e. IsBegun e.1) es
    → IsLine ts
    → b.incoming.blocks ≡ []
    → start (print_line es again ts) b
      ≡ ok (record b { incoming = no_message; output = b.output ++ flatten (parts es ++ ts) })
unfolding start round read_stdin read_server clear printed
start-print_line [] again ts b hs h e = rw (recv_srv-line again ts [] b h e) refl
start-print_line ((stale, us) ∷ es) again ts b (k, ks) h e =
    rw
      (
        recv_srv-cut_off stale us [] b k e,
        start-print_line es again ts
            (record b { incoming = no_message; output = b.output ++ flatten us }) ks h refl,
        append_assoc us (parts es) ts,
        flatten-append us (parts es ++ ts),
        append_assoc b.output (flatten us) (flatten (parts es ++ ts)),
      )
      refl
