-- ===== src/Posix/Main/Cleans.antt =====
-- p6: what the handler in the process of the server leaves behind.
use sphere_multithreading_cp.Prelude.{
  ==_refl, Bool, Bool-cases, List, Option, Option-cases, Result, [], ap, append-nil, append_assoc,
  arith, err, false, if◌then◌else◌, inl, inr, leb, length, none, ok, refl, some, subst, suc, sym,
  true, zero, ℕ, ◌++◌, ◌+◌, ◌==◌, ◌∙◌, ◌∷◌, ◌≡◌, ◌≤◌,
}
use sphere_multithreading_cp.Kernel.{
  ◌>>◌, Call, Trace, Failure, system_error, Prog, exec, wait, kill, sem_unlink, shm_unlink, close,
  close_server,
}
use sphere_multithreading_cp.Kernel.Laws.{Ends, exec-Ends, answers, exec->>=}
use sphere_multithreading_cp.Posix.Server.{Server, delete_server, close_all}
use sphere_multithreading_cp.Posix.Main.{
  delete_shared_memory, for_semaphors, delete_semaphors, kill_all, positive, wait_all, clean_up,
  handle_in_server,
}

-- Whom the signal went to, and which names were removed, in order; and how many processes `wait` has
-- given.
abbrev pub killed : ℕ → Trace → List ℕ
killed sig [] = []
killed sig ((kill pid s, a) ∷ tr) =
    let before = killed sig tr in if s == sig then before ++ pid ∷ [] else before
killed sig ((c, a) ∷ tr) = killed sig tr

-- `none` is the name of the shared memory.
abbrev pub removed : Trace → List (Option ℕ)
removed [] = []
removed ((sem_unlink i, a) ∷ tr) = removed tr ++ some i ∷ []
removed ((shm_unlink, a) ∷ tr) = removed tr ++ none ∷ []
removed ((c, a) ∷ tr) = removed tr

abbrev pub waited : Trace → ℕ
waited [] = 0
waited ((wait, some (suc n)) ∷ tr) = suc (waited tr)
waited ((c, a) ∷ tr) = waited tr

-- `tr'` differs from `tr` by signals to `pids` and by the names `names`.
abbrev pub Differs : ℕ → List ℕ → List (Option ℕ) → Trace → Trace → Type 0
Differs sig pids names tr tr' =
    (killed sig tr' ≡ killed sig tr ++ pids) × (removed tr' ≡ removed tr ++ names)

abbrev pub all_names : List (Option ℕ)
all_names = some 0 ∷ some 1 ∷ some 2 ∷ some 3 ∷ some 4 ∷ some 5 ∷ some 6 ∷ some 7 ∷ none ∷ []

-- What the handler comes to, behind `tr`.
abbrev pub Cleaned : ℕ → List ℕ → Trace → Result Failure Bool × Trace → Type 0
Cleaned sig pids tr (ok true, tr') = Differs sig pids all_names tr tr'
Cleaned sig pids tr (ok false, tr') = ⊥
Cleaned sig pids tr (err e, tr') = (e ≡ system_error) × Differs sig pids [] tr tr'

abbrev Sent : ℕ → List ℕ → Trace → Result Failure (Unit {0}) × Trace → Type 0
Sent sig pids tr (r, tr') = (r ≡ ok tt) × (waited tr' ≡ waited tr) × Differs sig pids [] tr tr'

kill_all-Ends :
    (sig : ℕ) (pids all : List ℕ) (tr0 tr : Trace) (before : List ℕ)
    → before ++ pids ≡ all
    → waited tr ≡ waited tr0
    → Differs sig before [] tr0 tr
    → Ends (Sent sig all tr0) (kill_all sig pids) tr
unfolding kill_all
kill_all-Ends sig [] all tr0 tr before e w (h, h') =
    (refl, w, (h ∙ ap (λ l. killed sig tr0 ++ l) (sym (append-nil before) ∙ e), h'))
kill_all-Ends sig (pid ∷ pids) all tr0 tr before e w (h, h') = λ o.
    kill_all-Ends sig pids all tr0 ((kill pid sig, o) ∷ tr) (before ++ pid ∷ [])
      (append_assoc before (pid ∷ []) pids ∙ e) w
      (rw (==_refl sig, h) (append_assoc (killed sig tr0) before (pid ∷ [])), h')

-- `wait` gives no more processes than there are.
wait_all-ends :
    (os : Trace → Call → Option ℕ) (n : ℕ)
    → ((tr : Trace) → n ≤ waited tr → positive (os tr wait) ≡ false)
    → (fuel : ℕ) (sig : ℕ) (pids : List ℕ) (tr0 tr : Trace) → n + 1 ≤ waited tr + fuel
    → waited tr ≤ n
    → Differs sig pids [] tr0 tr
    → (tr' : Trace) × (exec os (wait_all fuel) tr ≡ (ok true, tr')) × Differs sig pids [] tr0 tr'
unfolding wait_all exec
wait_all-ends os n h zero sig pids tr0 tr l m d = absurd (omega arith)
wait_all-ends os n h (suc fuel) sig pids tr0 tr l m d = elim (Option-cases (os tr wait)) [
  | inl e ↦ rw (wait_all, exec, e) ((wait, none) ∷ tr, refl, d)
  | inr (zero, e) ↦ rw (wait_all, exec, e) ((wait, some 0) ∷ tr, refl, d)
  | inr (suc p, e) ↦
      let more : waited tr + 1 ≤ n = elim (Bool-cases (leb n (waited tr))) [
        | inl y ↦ let z = rw e at (h tr (ground arith)) in cc
        | inr y ↦ ground arith
      ] in
      rw (wait_all, exec, e)
        (wait_all-ends os n h fuel sig pids tr0 ((wait, some (suc p)) ∷ tr) (omega (arith, l))
          (omega (arith, more)) d)
]

close_all-Ends :
    (fds : List ℕ) (P : Result Failure Bool × Trace → Type 0) (I : Trace → Type 0) (k : Prog Bool)
    (tr : Trace)
    → I tr
    → ((c : ℕ) (o : Option ℕ) (t : Trace) → I t → I ((close c, o) ∷ t))
    → ((t : Trace) → I t → Ends P k t)
    → Ends P (close_all fds >> k) tr
unfolding close_all
close_all-Ends [] P I k tr i step last = last tr i
close_all-Ends (fd ∷ fds) P I k tr i step last =
    λ o. close_all-Ends fds P I k ((close fd, o) ∷ tr) (step fd o tr i) step last

-- Behind the `while` the names are removed, or the destructor throws before that.
clean_up-Ends :
    (sig : ℕ) (pids : List ℕ) (s : Server) (tr0 tr : Trace)
    → Differs sig pids [] tr0 tr
    → Ends (Cleaned sig pids tr0) (clean_up s true) tr
unfolding clean_up delete_server close_server delete_semaphors for_semaphors delete_shared_memory
clean_up-Ends sig pids s tr0 tr d =
    answers _ (refl, d)
      λ _ a b c e.
        close_all-Ends s.fd_passing_writers (Cleaned sig pids tr0) (Differs sig pids [] tr0) _ _ d
          (λ x o t h. h)
          λ t (h, h') n0 n1 n2 n3 n4 n5 n6 n7 n8. (h, simp (h', append-nil, append_assoc) refl)

-- Where `wait` gives at most as many processes as the server knows of, its handler ends: it has sent the
-- signal to each of them in order, and has removed the names of all semaphores and of the shared memory;
-- or the destructor of the server has thrown, and none of the names was removed.
pub handle_in_server-Cleaned :
    (os : Trace → Call → Option ℕ) (sig : ℕ) (worker_pids : List ℕ) (s : Server) (tr : Trace)
    → waited tr ≤ length worker_pids
    → ((t : Trace) → length worker_pids ≤ waited t → positive (os t wait) ≡ false)
    → Cleaned sig worker_pids tr
        (exec os (handle_in_server (length worker_pids + 1) sig worker_pids s) tr)
unfolding handle_in_server
handle_in_server-Cleaned os sig worker_pids s tr l h =
    let n = length worker_pids in
    let P = Cleaned sig worker_pids tr in
    let sent = exec-Ends (Sent sig worker_pids tr) os (kill_all sig worker_pids) tr (
      kill_all-Ends sig worker_pids worker_pids tr tr [] refl refl
        (sym (append-nil (killed sig tr)), sym (append-nil (removed tr)))) in
    exec->>= P os (kill_all sig worker_pids) _ tr
      (λ e t x. let (r, w, d) = subst (Sent sig worker_pids tr) x sent in cc)
      (λ u t x.
        let (r, w, d) = subst (Sent sig worker_pids tr) x sent in
        let (t', y, d') =
          wait_all-ends os n h (n + 1) sig worker_pids tr t (omega arith) (omega (arith, l, w)) d in
        exec->>= P os (wait_all (n + 1)) (clean_up s) t (λ e t'' z. let z' = sym y ∙ z in cc)
          (λ done t'' z.
            let z' = sym y ∙ z in
            let same : done ≡ true = cc in
            let later : t'' ≡ t' = cc in
            rw (same, later)
              (exec-Ends P os (clean_up s true) t' (clean_up-Ends sig worker_pids s tr t' d'))))
