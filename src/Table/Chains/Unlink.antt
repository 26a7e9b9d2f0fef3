-- ===== src/Table/Chains/Unlink.antt =====
-- A node leaves its chain, and becomes the first of the free ones.
use sphere_multithreading_cp.Prelude.{
  Distinct, List, [], arith, false, if◌then◌else◌, is_empty, mem, mem-append, none, refl, some,
  subst, sym, true, ℕ, ◌++◌, ◌∙◌, ◌∷◌, ◌≡◌,
}
use sphere_multithreading_cp.Table.{Nodes, NodePtr, points_to, set_next, set_prev}
use sphere_multithreading_cp.Table.Chains.{
  outside, apart_single, last_or, outside-last_or, outside_tail, outside-last, Dll, SameLinks,
  frame, head_outside, set_next-SameLinks, set_prev-SameLinks, frame_at, Dll-set_prev,
}

module _ {P : Type 0} where
  set_prev-n_prev : (d : Nodes P) (i : ℕ) (q : NodePtr) → (set_prev (some i) q d i).n_prev ≡ q
  unfolding set_prev
  set_prev-n_prev d i q = ground arith

  unlinked-n_next : (d : Nodes P) (p q : NodePtr) (x : ℕ) → (set_prev p q d x).n_next ≡ (d x).n_next
  unfolding set_prev
  unlinked-n_next d none q x = refl
  unlinked-n_next d (some k) q x = ground arith

  -- As `set_node_free` does it: the node's own links are written last.
  pub Dll-push_free :
      (d : Nodes P) (p : NodePtr) (i : ℕ) (xs : List ℕ)
      → Distinct (i ∷ xs)
      → Dll d none p xs
      → Dll
          (set_prev (some i) none (set_next (some i) p (set_prev p (some i) d)))
          none
          (some i)
          (i ∷ xs)
  unfolding set_next
  Dll-push_free d p i xs u h =
      let e = set_prev p (some i) d in
      let f = set_next (some i) p e in
      let away : outside (some i) xs ≡ true = ground arith in
      let h' =
        frame e f (some i) p xs (Dll-set_prev d none (some i) p xs u.1 h)
          (set_next-SameLinks (some i) p e xs away) in
      (
        refl,
        set_prev-n_prev f i none,
        frame_at f (set_prev (some i) none f) (some i) p _ xs
            (unlinked-n_next f (some i) none i ∙ ground arith) h'
            (set_prev-SameLinks (some i) none f xs away),
      )

  prev_last :
      (d : Nodes P) (prev p : NodePtr) (i : ℕ) (xs ys : List ℕ)
      → Dll d prev p (xs ++ i ∷ ys)
      → (d i).n_prev ≡ last_or prev xs
  prev_last d prev p i [] ys h = h.1
  prev_last d prev p i (x ∷ xs) ys h = prev_last d (some x) (d x).n_next i xs ys h.2

  rest_chain :
      (d : Nodes P) (prev p : NodePtr) (i : ℕ) (xs ys : List ℕ)
      → Dll d prev p (xs ++ i ∷ ys)
      → Dll d (some i) (d i).n_next ys
  rest_chain d prev p i [] ys h = h.2
  rest_chain d prev p i (x ∷ xs) ys h = rest_chain d (some x) (d x).n_next i xs ys h.2

  -- The two writes that take the node `i` out.
  abbrev pub unlinked : Nodes P → ℕ → Nodes P
  unlinked d i = set_prev (d i).n_next (d i).n_prev (set_next (d i).n_prev (d i).n_next d)

  set_next-n_next :
      (d : Nodes P) (x : ℕ) (q p : NodePtr) → p ≡ some x → (set_next p q d x).n_next ≡ q
  unfolding set_next
  set_next-n_next d x q none e = cc
  set_next-n_next d x q (some k) e = ground arith

  set_next-n_prev : (d : Nodes P) (p q : NodePtr) (x : ℕ) → (set_next p q d x).n_prev ≡ (d x).n_prev
  unfolding set_next
  set_next-n_prev d none q x = refl
  set_next-n_prev d (some k) q x = ground arith

  -- The links of a node `x` in front of the one that goes.
  unlinked_prev :
      (d : Nodes P) (prev p : NodePtr) (i x : ℕ) (xs ys : List ℕ)
      → Dll d prev p (xs ++ i ∷ ys)
      → mem x ys ≡ false
      → (unlinked d i x).n_prev ≡ (d x).n_prev
  unlinked_prev d prev p i x xs ys h m =
      let e = set_next (d i).n_prev (d i).n_next d in
      let apart =
        head_outside d (some i) (d i).n_next ys (x ∷ []) (rest_chain d prev p i xs ys h)
          (apart_single x ys m) in
      (set_prev-SameLinks (d i).n_next (d i).n_prev e (x ∷ []) apart x (ground arith)).0
      ∙ set_next-n_prev d (d i).n_prev (d i).n_next x

  unlinked_next :
      (d : Nodes P) (p : NodePtr) (i x : ℕ) (xs ys : List ℕ)
      → Dll d (some x) p (xs ++ i ∷ ys)
      → mem x xs ≡ false
      → (unlinked d i x).n_next ≡ (if is_empty xs then (d i).n_next else (d x).n_next)
  unlinked_next d p i x [] ys h m =
      unlinked-n_next _ _ _ x ∙ set_next-n_next d x (d i).n_next (d i).n_prev h.1
  unlinked_next d p i x (y ∷ xs) ys h m =
      unlinked-n_next _ _ _ x
      ∙ (set_next-SameLinks (d i).n_prev (d i).n_next d (x ∷ [])
          (rw (prev_last d (some x) p i (y ∷ xs) ys h) (outside-last_or x y xs m)) x
          (ground arith)).1

  -- Without the node `i` the rest is still a chain.
  pub Dll-unlinked :
      (d : Nodes P) (prev p : NodePtr) (i : ℕ) (xs ys : List ℕ)
      → Distinct (xs ++ i ∷ ys)
      → outside prev (xs ++ i ∷ ys) ≡ true
      → Dll d prev p (xs ++ i ∷ ys)
      → Dll (unlinked d i) prev (if is_empty xs then (d i).n_next else p) (xs ++ ys)
  Dll-unlinked d prev p i [] ys u o h =
      let e = set_next (d i).n_prev (d i).n_next d in
      let apart : outside (d i).n_prev ys ≡ true =
        subst (λ r. outside r ys ≡ true) (sym h.1) (outside_tail prev i ys o) in
      let h' =
        frame d e (some i) (d i).n_next ys h.2
          (set_next-SameLinks (d i).n_prev (d i).n_next d ys apart) in
      subst (λ r. Dll (unlinked d i) r (d i).n_next ys) h.1
        (Dll-set_prev e (some i) (d i).n_prev (d i).n_next ys u.1 h')
  Dll-unlinked d prev p i (x ∷ xs) ys u o h = (
    h.0,
    unlinked_prev d (some x) (d x).n_next i x xs ys h.2 (ground (arith, mem-append x xs (i ∷ ys)))
        ∙ h.1,
    subst (λ r. Dll (unlinked d i) (some x) r (xs ++ ys))
        (sym
          (unlinked_next d (d x).n_next i x xs ys h.2 (ground (arith, mem-append x xs (i ∷ ys)))))
        (Dll-unlinked d (some x) (d x).n_next i xs ys u.1 (ground arith) h.2),
  )

  pub SameLinks-trans :
      (d e f : Nodes P) (xs : List ℕ) → SameLinks d e xs → SameLinks e f xs → SameLinks d f xs
  SameLinks-trans d e f xs h k j m = ((k j m).0 ∙ (h j m).0, (k j m).1 ∙ (h j m).1)

  pub prev_outside :
      (d : Nodes P) (p : NodePtr) (i : ℕ) (xs ys zs : List ℕ)
      → Dll d none p (xs ++ i ∷ ys)
      → ((j : ℕ) → mem j (xs ++ i ∷ ys) ≡ true → mem j zs ≡ false)
      → outside (d i).n_prev zs ≡ true
  prev_outside d p i xs ys zs h apart =
      subst (λ r. outside r zs ≡ true) (sym (prev_last d none p i xs ys h))
        (outside-last none xs zs refl (λ j m. apart j (ground (arith, mem-append j xs (i ∷ ys)))))

  pub next_outside :
      (d : Nodes P) (p : NodePtr) (i : ℕ) (xs ys zs : List ℕ)
      → Dll d none p (xs ++ i ∷ ys)
      → ((j : ℕ) → mem j (xs ++ i ∷ ys) ≡ true → mem j zs ≡ false)
      → outside (d i).n_next zs ≡ true
  next_outside d p i xs ys zs h apart =
      head_outside d (some i) (d i).n_next ys zs (rest_chain d none p i xs ys h)
        (λ j m. apart j (ground (arith, mem-append j xs (i ∷ ys))))

  pub points_away :
      (d : Nodes P) (prev p : NodePtr) (n : ℕ) (zs : List ℕ)
      → Dll d prev p zs
      → mem n zs ≡ false
      → points_to p n ≡ false
  points_away d prev none n zs h m = refl
  points_away d prev (some k) n [] h m = cc
  points_away d prev (some k) n (z ∷ zs) h m = ground (arith, h.0)

  pub points_head :
      (d : Nodes P) (prev p : NodePtr) (n : ℕ) (xs ys : List ℕ)
      → Dll d prev p (xs ++ n ∷ ys)
      → Distinct (xs ++ n ∷ ys)
      → points_to p n ≡ is_empty xs
  points_head d prev none n [] ys h u = cc
  points_head d prev (some k) n [] ys h u = ground (arith, h.0)
  points_head d prev none n (x ∷ xs) ys h u = cc
  points_head d prev (some k) n (x ∷ xs) ys h u = ground (arith, h.0, u.0, mem-append x xs (n ∷ ys))
