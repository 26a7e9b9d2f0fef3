-- ===== src/Kernel/Laws.antt =====
-- The descriptors that a server leaves open, by the calls it has made.
use sphere_multithreading_cp.Prelude.{
  List, Option, Result, [], append_assoc, arith, err, if◌then◌else◌, length, none, ok, refl, some,
  sym, ℕ, ◌++◌, ◌+◌, ◌==◌, ◌∙◌, ◌∷◌, ◌≡◌,
}
use sphere_multithreading_cp.Kernel.{
  Call, ◌>>=◌, socket, epoll_create, accept, close, Trace, Failure, system_error, no_events, Prog,
  pure, throw, call, exec, set_nonblock, open_server, bind, listen, epoll_add, calloc,
}

abbrev pub close_one : ℕ → List ℕ → List ℕ
close_one x [] = []
close_one x (y ∷ ys) = let rest = close_one x ys in if x == y then ys else y ∷ rest

-- What a call does to the list of open descriptors.
abbrev pub after : Call → Option ℕ → List ℕ → List ℕ
after socket (some fd) l = fd ∷ l
after epoll_create (some fd) l = fd ∷ l
after (accept s) (some fd) l = fd ∷ l
after (close fd) a l = close_one fd l
after c a l = l

abbrev pub left_open : Trace → List ℕ
left_open [] = []
left_open ((c, a) ∷ tr) = after c a (left_open tr)

-- How many descriptors the calls before `c` have opened when the constructor ends at `c`.
abbrev pub held_at : Call → ℕ
held_at socket = 0
held_at (epoll_add e fd) = 2
held_at calloc = 2
held_at c = 1

abbrev pub thrown_at : Call → Failure
thrown_at calloc = no_events
thrown_at c = system_error

-- What a constructor that began at `tr` has left behind, by how it ended.
abbrev pub Leaves : Trace → Result Failure (ℕ × ℕ) × Trace → Type 0
Leaves tr (ok m, tr') = left_open tr' ≡ m.1 ∷ m.0 ∷ left_open tr
Leaves tr (err e, tr') =
    (c : Call) × (rest : Trace) × (tr' ≡ (c, none) ∷ rest)
    × (e ≡ thrown_at c)
    × (length (left_open tr') ≡ held_at c + length (left_open tr))

-- Whatever the answers are, the program ends as `P` says.
abbrev pub Ends : {A : Type 0} → (Result Failure A × Trace → Type 0) → Prog A → Trace → Type 0
Ends P (pure a) tr = P (ok a, tr)
Ends P (throw e) tr = P (err e, tr)
Ends P (call c k) tr = (o : Option ℕ) → Ends P (k o) ((c, o) ∷ tr)

pub exec-Ends :
    {A : Type 0} (P : Result Failure A × Trace → Type 0) (os : Trace → Call → Option ℕ) (p : Prog A)
    (tr : Trace)
    → Ends P p tr
    → P (exec os p tr)
unfolding exec
exec-Ends P os (pure a) tr h = h
exec-Ends P os (throw e) tr h = h
exec-Ends P os (call c k) tr h = exec-Ends P os (k (os tr c)) ((c, os tr c) ∷ tr) (h (os tr c))

-- The two ways in which a call can be answered.
pub answers : (Q : Option ℕ → Type 0) → Q none → ((a : ℕ) → Q (some a)) → (o : Option ℕ) → Q o
answers Q n s none = n
answers Q n s (some a) = s a

open_server-Ends : (port : ℕ) (tr : Trace) → Ends (Leaves tr) (open_server port) tr
unfolding open_server set_nonblock
open_server-Ends port tr =
    answers _ (socket, tr, refl, refl, omega arith)
      λ s.
        answers _ (bind s port, _, refl, refl, omega arith)
          λ _ flags b.
            answers _ (listen s, _, refl, refl, omega arith)
              λ _.
                answers _ (epoll_create, _, refl, refl, omega arith)
                  λ e.
                    answers _ (epoll_add e s, _, refl, refl, omega arith)
                      λ _. answers _ (calloc, _, refl, refl, omega arith) λ _. refl

-- What every call keeps, the program keeps.
module _ (I : Trace → Type 0) where
  abbrev pub Keeps : {A : Type 0} → Prog A → Type 0
  Keeps p = (tr : Trace) → I tr → Ends (λ r. I r.1) p tr

  pub Ends->>= :
      {A B : Type 0} (m : Prog A) (f : A → Prog B) (tr : Trace)
      → Ends (λ r. I r.1) m tr
      → ((a : A) → Keeps (f a))
      → Ends (λ r. I r.1) (m >>= f) tr
  Ends->>= (pure a) f tr h k = k a tr h
  Ends->>= (throw e) f tr h k = h
  Ends->>= (call c g) f tr h k = λ o. Ends->>= (g o) f ((c, o) ∷ tr) (h o) k

-- A run only adds calls.
pub exec-grows :
    {A : Type 0} (os : Trace → Call → Option ℕ) (p : Prog A) (tr : Trace)
    → (later : Trace) × ((exec os p tr).1 ≡ later ++ tr)
unfolding exec
exec-grows os (pure a) tr = ([], refl)
exec-grows os (throw e) tr = ([], refl)
exec-grows os (call c k) tr =
    let (later, e) = exec-grows os (k (os tr c)) ((c, os tr c) ∷ tr) in
    (later ++ (c, os tr c) ∷ [], e ∙ sym (append_assoc later ((c, os tr c) ∷ []) tr))

close_one_first : (x : ℕ) (xs : List ℕ) → close_one x (x ∷ xs) ≡ xs
close_one_first x xs = ground arith

-- A constructor ends with its two descriptors open beside what was open before; or it throws, by the
-- call that has just failed, and leaves open what it has opened.
pub open_server-Leaves :
    (os : Trace → Call → Option ℕ) (port : ℕ) (tr : Trace)
    → Leaves tr (exec os (open_server port) tr)
open_server-Leaves os port tr =
    exec-Ends (Leaves tr) os (open_server port) tr (open_server-Ends port tr)

-- A run in two parts, the second from where the first ends.
pub exec->>= :
    {A B : Type 0} (P : Result Failure B × Trace → Type 0) (os : Trace → Call → Option ℕ)
    (m : Prog A) (f : A → Prog B) (tr : Trace)
    → ((e : Failure) (tr' : Trace) → exec os m tr ≡ (err e, tr') → P (err e, tr'))
    → ((a : A) (tr' : Trace) → exec os m tr ≡ (ok a, tr') → P (exec os (f a) tr'))
    → P (exec os (m >>= f) tr)
unfolding exec
exec->>= P os (pure a) f tr x y = y a tr refl
exec->>= P os (throw e) f tr x y = x e tr refl
exec->>= P os (call c k) f tr x y = exec->>= P os (k (os tr c)) f ((c, os tr c) ∷ tr) x y
