-- ===== src/Kernel/Tracked.antt =====
-- The list of the threads that the kernel tracks (`tracks` and `untrack` of
-- core/oskernel/src/kernel.cpp).
use enml.Base.{
  ℕ, ◌==◌, false, ◌&&◌, ◌||◌, not, List, [], ◌∷◌, ◌++◌, ◌≡◌, refl, arith, inl, inr, Bool-cases,
}
use enml.Kernel.{tracked, untrack, last_of, drop_last}

pub tracked-append : (j t : ℕ) (ts : List ℕ) → tracked j (ts ++ (t ∷ [])) ≡ (tracked j ts || t == j)
unfolding tracked
tracked-append j t [] = ground arith
tracked-append j t (u ∷ ts) = ground (arith, tracked-append j t ts)

-- No thread stands twice.
abbrev pub IsOnce : List ℕ → Type 0
IsOnce [] = Unit
IsOnce (x ∷ xs) = (tracked x xs ≡ false) × IsOnce xs

pub IsOnce-append :
    (t : ℕ) (ts : List ℕ) → IsOnce ts → tracked t ts ≡ false → IsOnce (ts ++ (t ∷ []))
unfolding tracked
IsOnce-append t [] u n = (refl, tt)
IsOnce-append t (x ∷ ts) u n =
    (ground (arith, u.0, tracked-append x t ts), IsOnce-append t ts u.1 (ground (arith, n)))

-- The last entry in front of the others is the same list in another order.
tracked-drop_last :
    (j y : ℕ) (ts : List ℕ) → (last_of y ts == j || tracked j (drop_last y ts)) ≡ tracked j (y ∷ ts)
unfolding tracked
tracked-drop_last j y [] = ground arith
tracked-drop_last j y (t ∷ ts) = ground (arith, tracked-drop_last j t ts)

IsOnce-drop_last : (y : ℕ) (ts : List ℕ) → IsOnce (y ∷ ts) → IsOnce (last_of y ts ∷ drop_last y ts)
unfolding tracked
IsOnce-drop_last y [] u = u
IsOnce-drop_last y (t ∷ ts) u =
    let v = IsOnce-drop_last t ts u.1 in
    let apart = tracked-drop_last y t ts in
    (ground (arith, u.0, v.0, apart), (ground (arith, u.0, apart), v.1))

pub tracked-untrack :
    (j t : ℕ) (ts : List ℕ) → IsOnce ts → tracked j (untrack t ts) ≡ (tracked j ts && not (t == j))
unfolding tracked untrack
tracked-untrack j t [] u = refl
tracked-untrack j t (x ∷ []) u = ground arith
tracked-untrack j t (x ∷ y ∷ ts) u =
    ground (arith, u.0, tracked-drop_last j y ts, tracked-untrack j t (y ∷ ts) u.1)

pub IsOnce-untrack : (t : ℕ) (ts : List ℕ) → IsOnce ts → IsOnce (untrack t ts)
unfolding untrack
IsOnce-untrack t [] u = u
IsOnce-untrack t (x ∷ []) u = elim (Bool-cases (x == t)) [ inl e ↦ rw e tt | inr e ↦ rw e u ]
IsOnce-untrack t (x ∷ y ∷ ts) u = elim (Bool-cases (x == t)) [
  | inl e ↦ rw e (IsOnce-drop_last y ts u.1)
  | inr e ↦
      rw e (ground (arith, u.0, tracked-untrack x t (y ∷ ts) u.1), IsOnce-untrack t (y ∷ ts) u.1)
]
