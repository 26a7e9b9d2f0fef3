-- ===== src/Table/Chains.antt =====
-- Doubly linked chains through `p_data`, and what the pointer writes of the table do to them.
pub mod Unlink
use sphere_multithreading_cp.Prelude.{
  Bool, Distinct, List, [], arith, false, mem, none, not, refl, some, subst, sym, true, ℕ, ◌++◌,
  ◌∙◌, ◌∷◌, ◌≡◌,
}
use sphere_multithreading_cp.Table.{
  Nodes, NodePtr, update, points_to, set_next, set_prev, set_stored,
}

-- The node that a pointer may stand for is not in the list.
abbrev pub outside : NodePtr → List ℕ → Bool
outside none xs = true
outside (some a) xs = not (mem a xs)

pub apart_single :
    (i : ℕ) (xs : List ℕ) → mem i xs ≡ false → (j : ℕ) → mem j xs ≡ true → mem j (i ∷ []) ≡ false
apart_single i xs h j m = ground arith

-- The last node of `xs`, or `prev` if there is none.
abbrev pub last_or : NodePtr → List ℕ → NodePtr
last_or prev [] = prev
last_or prev (x ∷ xs) = last_or (some x) xs

outside-last_or :
    (x a : ℕ) (xs : List ℕ) → mem x (a ∷ xs) ≡ false → outside (last_or (some a) xs) (x ∷ []) ≡ true
outside-last_or x a [] h = ground arith
outside-last_or x a (b ∷ xs) h = outside-last_or x b xs (ground arith)

Distinct-drop : (xs ys : List ℕ) → Distinct (xs ++ ys) → Distinct ys
Distinct-drop [] ys h = h
Distinct-drop (x ∷ xs) ys h = Distinct-drop xs ys h.1

outside_tail : (p : NodePtr) (i : ℕ) (ys : List ℕ) → outside p (i ∷ ys) ≡ true → outside p ys ≡ true
outside_tail none i ys h = refl
outside_tail (some a) i ys h = ground arith

outside-last :
    (prev : NodePtr) (xs zs : List ℕ)
    → outside prev zs ≡ true
    → ((j : ℕ) → mem j xs ≡ true → mem j zs ≡ false)
    → outside (last_or prev xs) zs ≡ true
outside-last prev [] zs h apart = h
outside-last prev (x ∷ xs) zs h apart =
    outside-last (some x) xs zs (ground (arith, apart x)) (λ j m. apart j (ground arith))

module _ {P : Type 0} where
  -- From `p` the `n_next` lead through the nodes `xs` to null, and each `n_prev` leads back; that
  -- of the first node is `prev`.
  abbrev pub Dll : Nodes P → NodePtr → NodePtr → List ℕ → Type 0
  Dll d prev p [] = p ≡ none
  Dll d prev p (i ∷ xs) = (p ≡ some i) × ((d i).n_prev ≡ prev) × Dll d (some i) (d i).n_next xs

  -- `e` has the links of `d` at the nodes of `xs`.
  abbrev pub SameLinks : Nodes P → Nodes P → List ℕ → Type 0
  SameLinks d e xs =
      (j : ℕ) → mem j xs ≡ true → ((e j).n_prev ≡ (d j).n_prev) × ((e j).n_next ≡ (d j).n_next)

  pub frame :
      (d e : Nodes P) (prev p : NodePtr) (xs : List ℕ)
      → Dll d prev p xs
      → SameLinks d e xs
      → Dll e prev p xs
  frame d e prev p [] h same = h
  frame d e prev p (i ∷ xs) h same =
      let (a, b) = same i (ground arith) in
      (h.0, a ∙ h.1, frame d e (some i) (e i).n_next xs (rw b h.2) (λ j m. same j (ground arith)))

  pub head_outside :
      (d : Nodes P) (prev p : NodePtr) (xs ys : List ℕ)
      → Dll d prev p xs
      → ((j : ℕ) → mem j xs ≡ true → mem j ys ≡ false)
      → outside p ys ≡ true
  head_outside d prev p [] ys h apart = rw (h)
  head_outside d prev p (i ∷ xs) ys h apart = rw (h.0, apart i (ground arith))

  pub set_next-stored :
      (p q : NodePtr) (d : Nodes P) (j : ℕ) → (set_next p q d j).stored ≡ (d j).stored
  unfolding set_next
  set_next-stored none q d j = refl
  set_next-stored (some i) q d j = ground arith

  pub set_prev-stored :
      (p q : NodePtr) (d : Nodes P) (j : ℕ) → (set_prev p q d j).stored ≡ (d j).stored
  unfolding set_prev
  set_prev-stored none q d j = refl
  set_prev-stored (some i) q d j = ground arith

  pub set_next-SameLinks :
      (p q : NodePtr) (d : Nodes P) (xs : List ℕ)
      → outside p xs ≡ true
      → SameLinks d (set_next p q d) xs
  unfolding set_next
  set_next-SameLinks none q d xs h j m = (refl, refl)
  set_next-SameLinks (some i) q d xs h j m = ground arith

  pub set_prev-SameLinks :
      (p q : NodePtr) (d : Nodes P) (xs : List ℕ)
      → outside p xs ≡ true
      → SameLinks d (set_prev p q d) xs
  unfolding set_prev
  set_prev-SameLinks none q d xs h j m = (refl, refl)
  set_prev-SameLinks (some i) q d xs h j m = ground arith

  pub frame_at :
      (d e : Nodes P) (prev p p' : NodePtr) (xs : List ℕ)
      → p' ≡ p
      → Dll d prev p xs
      → SameLinks d e xs
      → Dll e prev p' xs
  frame_at d e prev p p' xs q h same =
      subst (λ r. Dll e prev r xs) (sym q) (frame d e prev p xs h same)

  pub set_stored-SameLinks :
      (i : ℕ) (p : P) (d : Nodes P) (xs : List ℕ) → SameLinks d (set_stored i p d) xs
  unfolding set_stored
  set_stored-SameLinks i p d xs j m = ground arith

  -- A new `n_prev` for the first node.
  pub Dll-set_prev :
      (d : Nodes P) (prev q p : NodePtr) (xs : List ℕ)
      → Distinct xs
      → Dll d prev p xs
      → Dll (set_prev p q d) q p xs
  unfolding set_prev
  Dll-set_prev d prev q none [] u h = refl
  Dll-set_prev d prev q (some k) [] u h = cc
  Dll-set_prev d prev q none (i ∷ xs) u h = cc
  Dll-set_prev d prev q (some k) (i ∷ xs) u h = (
    h.0,
    ground arith,
    frame_at d (update d k (record (d k) { n_prev = q })) (some i) _ _ xs (ground arith) h.2
        (set_prev-SameLinks (some k) q d xs (ground arith)),
  )

  -- The node `i`, not in the chain, put in front of it.
  pub Dll-push :
      (d : Nodes P) (p : NodePtr) (i : ℕ) (xs : List ℕ)
      → Distinct (i ∷ xs)
      → Dll d none p xs
      → (d i).n_prev ≡ none
      → Dll (set_prev p (some i) (set_next (some i) p d)) none (some i) (i ∷ xs)
  unfolding set_next
  Dll-push d p i xs u h k =
      let e = set_next (some i) p d in
      let h' = frame d e none p xs h (set_next-SameLinks (some i) p d xs (ground arith)) in
      let same =
        set_prev-SameLinks p (some i) e (i ∷ [])
          (head_outside e none p xs (i ∷ []) h' (apart_single i xs u.0)) in
      let at_i = same i (ground arith) in
      (
        refl,
        at_i.0 ∙ ground arith,
        subst (λ r. Dll (set_prev p (some i) e) (some i) r xs) (sym (at_i.1 ∙ ground arith))
            (Dll-set_prev e none (some i) p xs u.1 h'),
      )
