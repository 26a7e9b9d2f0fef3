-- ===== src/Chat/Blocks.antt =====
-- `Message(const std::string&)` of p2 cuts a text into blocks.
use mathlib.Core.List.{flatten}
use sphere_multithreading_cp.Prelude.{
  All, Bool, Bool-cases, List, [], append-All, append-nil, append-take-drop, append_assoc, arith,
  drop, inl, inr, leb, length, length-drop, length-take, not, refl, suc, sym, take, take_all, true,
  zero, ℕ, ◌&&◌, ◌++◌, ◌+◌, ◌<◌, ◌==◌, ◌∷◌, ◌≡◌, ◌≤◌,
}
use sphere_multithreading_cp.Shell.{Text}
use sphere_multithreading_cp.Chat.{
  buff_size, Message, no_message, append, printed, c_string, append_parts, new_message,
}

-- No byte of the text is NUL.
unfoldable pub no_nul : Text → Bool
no_nul [] = true
no_nul (c ∷ cs) = not (c == 0) && no_nul cs

pub c_string-all : (t : Text) → no_nul t ≡ true → c_string t ≡ t
unfolding c_string no_nul
c_string-all [] h = refl
c_string-all (c ∷ cs) h = elim (Bool-cases (c == 0)) [
  | inl z ↦ absurd (ground arith)
  | inr z ↦ rw (z, c_string-all cs (rw z at h)) refl
]

no_nul-drop : (n : ℕ) (t : Text) → no_nul t ≡ true → no_nul (drop n t) ≡ true
unfolding no_nul
no_nul-drop zero t h = h
no_nul-drop (suc n) [] h = h
no_nul-drop (suc n) (c ∷ cs) h = no_nul-drop n cs (ground (arith, h))

flatten-push : (bs : List Text) (b : Text) → flatten (bs ++ b ∷ []) ≡ flatten bs ++ b
unfolding flatten
flatten-push [] b = append-nil b
flatten-push (c ∷ bs) b = rw (flatten-push bs b) (sym (append_assoc c (flatten bs) b))

printed-append : (b : Text) (m : Message) → printed (append b m) ≡ printed m ++ b
unfolding printed append
printed-append b m = flatten-push m.blocks b

printed-append_parts :
    (fuel : ℕ) (t : Text) (m : Message)
    → no_nul t ≡ true
    → length t < fuel
    → printed (append_parts fuel t m) ≡ printed m ++ t
unfolding append_parts
printed-append_parts zero t m h l = absurd (omega arith)
printed-append_parts (suc fuel) t m h l = elim (Bool-cases (leb buff_size (length t))) [
  | inl more ↦
      let ih =
        printed-append_parts fuel (drop buff_size t) (append (take buff_size t) m)
          (no_nul-drop buff_size t h) (ground (arith, length-drop buff_size t)) in
      rw
        (
          more,
          c_string-all t h,
          ih,
          printed-append (take buff_size t) m,
          append_assoc (printed m) (take buff_size t) (drop buff_size t),
          append-take-drop buff_size t,
        )
        refl
  | inr last ↦
      rw
        (
          last,
          c_string-all t h,
          printed-append (take buff_size t) m,
          take_all buff_size t (ground arith),
        )
        refl
]

Small : Text → Type 0
Small b = length b ≤ buff_size

append_parts-Small :
    (fuel : ℕ) (t : Text) (m : Message)
    → All Small m.blocks
    → All Small (append_parts fuel t m).blocks
unfolding append_parts append Small
append_parts-Small zero t m h = h
append_parts-Small (suc fuel) t m h =
    let h' =
      append-All Small m.blocks (take buff_size (c_string t) ∷ []) h
        (length-take buff_size (c_string t), tt) in
    elim (Bool-cases (leb buff_size (length t))) [
      | inl more ↦ rw more (append_parts-Small fuel (drop buff_size t) _ h')
      | inr last ↦ rw last h'
    ]

-- A message that is made of a text without NUL prints as that text, and none of its blocks is longer
-- than `BUFF_SIZE`.
pub printed-new_message :
    (t : Text)
    → no_nul t ≡ true
    → (printed (new_message t) ≡ t) × All (λ b. length b ≤ buff_size) (new_message t).blocks
unfolding new_message printed Small flatten
printed-new_message t h = (
  printed-append_parts (length t + 1) t no_message h (omega arith),
  append_parts-Small (length t + 1) t no_message tt,
)
