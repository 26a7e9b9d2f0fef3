-- ===== src/Trie/Server/Replies.antt =====
-- What a client of the suggestion server is sent.
use sphere_multithreading_cp.Prelude.{
  All, Bool, List, List-cases, Result, Result-cases, [], ap, append-nil, append_assoc, arith, err,
  false, inl, inr, leb, length, ltb, map, ok, pop_back, refl, subst, sym, take, true, ℕ, ◌++◌, ◌+◌,
  ◌<◌, ◌>>=◌, ◌∙◌, ◌∷◌, ◌≡◌, ◌≤◌,
}
use sphere_multithreading_cp.Shell.{Text}
use sphere_multithreading_cp.Trie.{Node, Word, TrieErrorType, num_words, get_node_prefix}
use sphere_multithreading_cp.Trie.Words.{words_below, get_words-take}
use sphere_multithreading_cp.Trie.Server.{
  max_buf_size, Reply, ok_line, ok_word, fail, Server, bytes, words, refused, first_word, look_up,
  proccess_message_from_client, send_message_to_client, send_words, recv_message_from_client,
  send_answer, process_client_event,
}

-- The words for a prefix.
unfoldable pub suggestions : Node → Word → Result TrieErrorType (List Word)
suggestions p_dict w =
    get_node_prefix p_dict w >>= λ n. ok (take num_words (words_below (pop_back w) n))

-- The replies to a word, which may be empty.
unfoldable pub replies : Node → Word → List Reply
replies p_dict [] = []
replies p_dict (c ∷ cs) = elim (suggestions p_dict (c ∷ cs)) [
  | err e ↦ fail e ∷ []
  | ok ws ↦ ok_line ∷ map ok_word ws
]

-- Each word fits into the buffer.
unfoldable pub Short : List Word → Type 0
Short ws = All (λ v. length v + 6 ≤ max_buf_size) ws

-- The suggested words fit.
unfoldable pub Fits : Node → Word → Type 0
Fits p_dict w = (ws : List Word) → suggestions p_dict w ≡ ok ws → Short ws

ok-words :
    (r : Result TrieErrorType (List Word)) (ws vs : List Word) → r ≡ ok ws → r ≡ ok vs → ws ≡ vs
ok-words r ws vs h k = cc

-- It is enough to look at the words there are.
pub Fits-Short :
    (p_dict : Node) (w : Word) (ws : List Word)
    → suggestions p_dict w ≡ ok ws
    → Short ws
    → Fits p_dict w
unfolding Fits
Fits-Short p_dict w ws e h vs k = subst Short (ok-words (suggestions p_dict w) ws vs e k) h

unfoldable pub delivered : ℕ → List Reply → Server → Server
delivered fd rs s = record s { sent = s.sent ++ map (λ r. (fd, r)) rs }

delivered_more :
    (fd : ℕ) (r : Reply) (rs : List Reply) (s : Server)
    → delivered fd rs (send_message_to_client fd r s) ≡ delivered fd (r ∷ rs) s
unfolding delivered send_message_to_client
delivered_more fd r rs s =
    ap (λ l. record s { sent = l }) (append_assoc s.sent ((fd, r) ∷ []) (map (λ x. (fd, x)) rs))

delivered_none : (fd : ℕ) (s : Server) → delivered fd [] s ≡ s
unfolding delivered
delivered_none fd s = ap (λ l. record s { sent = l }) (append-nil s.sent)

send_words-delivered :
    (fd : ℕ) (ws : List Word) (s : Server)
    → Short ws
    → send_words fd ws s ≡ ok (delivered fd (map ok_word ws) s)
unfolding send_words Short
send_words-delivered fd [] s h = ap ok (sym (delivered_none fd s))
send_words-delivered fd (w ∷ ws) s h =
    let fits : leb (length w + 6) max_buf_size ≡ true = ground arith in
    rw fits (
      send_words-delivered fd ws (send_message_to_client fd (ok_word w) s) h.1
      ∙ ap ok (delivered_more fd (ok_word w) (map ok_word ws) s))

module _ (p_dict : Node) (c : ℕ) (cs : Word) (small : length (c ∷ cs) ≤ 255) where
  look_up-refused :
      (e : TrieErrorType)
      → get_node_prefix p_dict (c ∷ cs) ≡ err e
      → look_up p_dict (c ∷ cs) ≡ ok (refused e)
  unfolding look_up
  look_up-refused e h =
      let room : ltb 255 (length (c ∷ cs)) ≡ false = ground arith in
      rw (room, get_words-take p_dict (c ∷ cs), h) refl

  look_up-words :
      (n : Node)
      → get_node_prefix p_dict (c ∷ cs) ≡ ok n
      → look_up p_dict (c ∷ cs) ≡ ok (words (take num_words (words_below (pop_back (c ∷ cs)) n)))
  unfolding look_up
  look_up-words n h =
      let room : ltb 255 (length (c ∷ cs)) ≡ false = ground arith in
      rw (room, get_words-take p_dict (c ∷ cs), h) refl

  replies_refused :
      (e : TrieErrorType)
      → get_node_prefix p_dict (c ∷ cs) ≡ err e
      → replies p_dict (c ∷ cs) ≡ fail e ∷ []
  unfolding replies suggestions
  replies_refused e h = rw (replies, suggestions, h) refl

  replies_words :
      (n : Node)
      → get_node_prefix p_dict (c ∷ cs) ≡ ok n
      → replies p_dict (c ∷ cs)
        ≡ ok_line ∷ map ok_word (take num_words (words_below (pop_back (c ∷ cs)) n))
  unfolding replies suggestions
  replies_words n h = rw (replies, suggestions, h) refl

  -- What a word is answered with.
  send-look_up :
      (fd : ℕ) (s : Server)
      → Fits p_dict (c ∷ cs)
      → (look_up p_dict (c ∷ cs) >>= λ a. send_answer fd a s)
        ≡ ok (delivered fd (replies p_dict (c ∷ cs)) s)
  unfolding Fits suggestions send_answer send_message_to_client delivered
  send-look_up fd s f = elim (Result-cases (get_node_prefix p_dict (c ∷ cs))) [
    | inl (e, h) ↦ rw (look_up-refused e h, replies_refused e h) refl
    | inr (n, h) ↦
        let ws = take num_words (words_below (pop_back (c ∷ cs)) n) in
        rw (look_up-words n h, replies_words n h)
          (send_words-delivered fd ws (send_message_to_client fd ok_line s) (f ws (rw h refl))
            ∙ ap ok (delivered_more fd ok_line (map ok_word ws) s))
  ]

send-proccess :
    (fd : ℕ) (t : Text) (s : Server)
    → length (first_word t) ≤ 255
    → Fits s.p_dict (first_word t)
    → (proccess_message_from_client s.p_dict t >>= λ a. send_answer fd a s)
      ≡ ok (delivered fd (replies s.p_dict (first_word t)) s)
unfolding proccess_message_from_client replies send_answer
send-proccess fd t s m f = elim (List-cases (first_word t)) [
  | inl e ↦ rw (proccess_message_from_client, e, replies) (ap ok (sym (delivered_none fd s)))
  | inr (c, cs, e) ↦
      rw (proccess_message_from_client, e) (send-look_up s.p_dict c cs (rw e at m) fd s (rw e at f))
]

bind_then :
    {E A B C : Type 0} (r : Result E A) (f : A → Result E B) (g : B → Result E C) (b : B)
    → (r >>= f) ≡ ok b
    → (r >>= λ a. f a >>= g) ≡ g b
bind_then (ok a) f g b h = rw h refl
bind_then (err e) f g b h = cc

-- A client is sent "OK" and the first `NUM_WORDS` words below its prefix in the order of the alphabet,
-- "FAIL" if there is no such prefix or it has another character than a letter, and nothing for a blank
-- text. The text must leave room for a NUL, its word for one in 256 characters, and the words must fit
-- into the buffer.
pub process_client_event-replies :
    (epoll_ctl : ℕ → Bool) (t : Text) (fd : ℕ) (s : Server)
    → length t < max_buf_size
    → length (first_word t) ≤ 255
    → Fits s.p_dict (first_word t)
    → process_client_event epoll_ctl (bytes t) false fd s
      ≡ ok (delivered fd (replies s.p_dict (first_word t)) s)
unfolding process_client_event recv_message_from_client
process_client_event-replies epoll_ctl t fd s l m f =
    let room : ltb (length t) max_buf_size ≡ true = ground arith in
    rw room (
      bind_then (proccess_message_from_client s.p_dict t) (λ a. send_answer fd a s) ok
        (delivered fd (replies s.p_dict (first_word t)) s) (send-proccess fd t s m f))
