-- ===== src/Capability/Marking.antt =====
-- The marking passes of `sweep_doomed` (core/oskernel/src/capability.cpp), pass by pass.
use enml.Base.{
  ℕ, zero, suc, ◌+◌, ◌≤◌, ◌<◌, ltb, ◌==◌, if◌then◌else◌, true, false, ◌&&◌, none, some, List, [],
  ◌∷◌, ◌≡◌, ◌≢◌, ◌⊎◌, inl, inr, refl, arith, subst, Option-cases, Bool-cases, get_elem?, length,
}
use enml.Base.Arrays.{get_elem?-set, length-set}
use enml.Capability.{Slot, parent_of}
use enml.Capability.Revoke.{doom, is_marked, visit, pass_from, pass, passes}

-- Every derived capability stands one level below the one that its slot points to.
abbrev pub IsDerived : List Slot → Slot → Type 0
IsDerived xs a =
    ((a.parent ≡ 0) × (a.depth ≡ 0))
    ⊎ ((p : Slot) × (parent_of a xs ≡ some p) × (a.depth ≡ suc p.depth))

abbrev pub IsLinked : List Slot → Type 0
IsLinked xs = (i : ℕ) (a : Slot) → get_elem? xs i ≡ some a → a.occupied ≡ true → IsDerived xs a

-- What one visit leaves at each index.
pub get_elem?-visit :
    (i j : ℕ) (xs : List Slot)
    → get_elem? (visit i xs).0 j ≡ (elim (get_elem? xs j) [
      | none ↦ none
      | some a ↦ some (if i == j && is_marked xs a then doom a else a)
    ])
unfolding visit
get_elem?-visit i j xs = elim (Option-cases (get_elem? xs i)) [
  | inl e ↦ ground arith
  | inr (a, e) ↦ ground (arith, get_elem?-set xs i j (doom a))
]

-- A visit may mark the parent, and changes nothing else of it.
pub parent_of-visit :
    (i : ℕ) (xs : List Slot) (a : Slot)
    → parent_of a (visit i xs).0 ≡ (elim (parent_of a xs) [
      | none ↦ none
      | some p ↦ some (if i == a.parent_slot && is_marked xs p then doom p else p)
    ])
unfolding parent_of
parent_of-visit i xs a = elim (Option-cases (get_elem? xs a.parent_slot)) [
  | inl e ↦ ground (arith, get_elem?-visit i a.parent_slot xs)
  | inr (p, e) ↦ ground (arith, get_elem?-visit i a.parent_slot xs)
]

pub parent_of_sound :
    (xs : List Slot) (a p : Slot)
    → parent_of a xs ≡ some p
    → (get_elem? xs a.parent_slot ≡ some p)
      × (p.occupied ≡ true)
      × (p.id ≡ a.parent)
      × (a.parent ≢ 0)
unfolding parent_of
parent_of_sound xs a p e = ground arith

parent_of-doom : (xs : List Slot) (a : Slot) → parent_of (doom a) xs ≡ parent_of a xs
unfolding parent_of
parent_of-doom xs a = refl

-- Where a slot stood before a visit, and where its parent did.
before-visit :
    (i j : ℕ) (xs : List Slot) (b : Slot)
    → get_elem? (visit i xs).0 j ≡ some b
    → (a : Slot) × (get_elem? xs j ≡ some a)
      × (b ≡ (if i == j && is_marked xs a then doom a else a))
      × (parent_of b (visit i xs).0 ≡ parent_of a (visit i xs).0)
before-visit i j xs b e = elim (Option-cases (get_elem? xs j)) [
  | inl q ↦ absurd (ground (arith, get_elem?-visit i j xs))
  | inr (a, q) ↦ (
    a,
    q,
    ground (arith, get_elem?-visit i j xs),
    ground (arith, get_elem?-visit i j xs, parent_of-doom (visit i xs).0 a),
  )
]

visit-IsLinked : (i : ℕ) (xs : List Slot) → IsLinked xs → IsLinked (visit i xs).0
visit-IsLinked i xs l j b e o =
    let (a, q, s, same) = before-visit i j xs b e in derived a (l j a q (ground arith)) s same
  where
    derived :
        (a : Slot)
        → IsDerived xs a
        → b ≡ (if i == j && is_marked xs a then doom a else a)
        → parent_of b (visit i xs).0 ≡ parent_of a (visit i xs).0
        → IsDerived (visit i xs).0 b
    derived a (inl z) s same = inl (ground arith)
    derived a (inr (p, f, d)) s same = inr (
      (if i == a.parent_slot && is_marked xs p then doom p else p),
      ground (arith, parent_of-visit i xs a),
      ground arith,
    )

-- Down to a depth, every derived slot whose parent is doomed is doomed: to depth `k + 1` at the
-- indices that the pass has been through, to depth `k` at the others.
abbrev pub IsClosed : ℕ → ℕ → List Slot → Type 0
IsClosed k i xs =
    (j : ℕ) (a p : Slot)
    → get_elem? xs j ≡ some a
    → a.occupied ≡ true
    → parent_of a xs ≡ some p
    → p.doomed ≡ true
    → a.depth ≤ (if ltb j i then suc k else k)
    → a.doomed ≡ true

visit-IsClosed :
    (k i : ℕ) (xs : List Slot) → IsLinked xs → IsClosed k i xs → IsClosed k (suc i) (visit i xs).0
visit-IsClosed k i xs l c j b p' e o f d h =
    let (a, q, s, same) = before-visit i j xs b e in closed a (l j a q (ground arith)) q s same
  where
    closed :
        (a : Slot)
        → IsDerived xs a
        → get_elem? xs j ≡ some a
        → b ≡ (if i == j && is_marked xs a then doom a else a)
        → parent_of b (visit i xs).0 ≡ parent_of a (visit i xs).0
        → b.doomed ≡ true
    closed a (inl z) q s same = absurd (ground (arith, parent_of_sound (visit i xs).0 b p' f))
    closed a (inr (p, g, r)) q s same = elim (Bool-cases (i == a.parent_slot && is_marked xs p)) [
      | inl m ↦ elim (Option-cases (parent_of p xs)) [
        | inl w ↦ absurd (ground arith)
        | inr (t, w) ↦ absurd (ground (arith, parent_of_sound xs a p g, c i p t))
      ]
      | inr m ↦ ground (arith, parent_of-visit i xs a, c j a p)
    ]

pass_from-IsLinked : (n i : ℕ) (xs : List Slot) → IsLinked xs → IsLinked (pass_from n i xs).0
unfolding pass_from
pass_from-IsLinked zero i xs l = l
pass_from-IsLinked (suc n) i xs l =
    pass_from-IsLinked n (suc i) (visit i xs).0 (visit-IsLinked i xs l)

pass_from-IsClosed :
    (k n i m : ℕ) (xs : List Slot)
    → i + n ≡ m
    → IsLinked xs
    → IsClosed k i xs
    → IsClosed k m (pass_from n i xs).0
unfolding pass_from
pass_from-IsClosed k zero i m xs e l c =
    let e' : i ≡ m = omega arith in subst (λ j. IsClosed k j xs) e' c
pass_from-IsClosed k (suc n) i m xs e l c =
    pass_from-IsClosed k n (suc i) m (visit i xs).0 (omega arith) (visit-IsLinked i xs l)
      (visit-IsClosed k i xs l c)

visit-unchanged : (i : ℕ) (xs : List Slot) → (visit i xs).1 ≡ false → (visit i xs).0 ≡ xs
unfolding visit
visit-unchanged i xs h = ground arith

pass_from-unchanged :
    (n i : ℕ) (xs : List Slot) → (pass_from n i xs).1 ≡ false → (pass_from n i xs).0 ≡ xs
unfolding pass_from
pass_from-unchanged zero i xs h = refl
pass_from-unchanged (suc n) i xs h =
    let e : (visit i xs).0 ≡ xs = ground (arith, visit-unchanged i xs) in
    rw e (pass_from-unchanged n (suc i) xs (ground arith))

visit-length : (i : ℕ) (xs : List Slot) → length (visit i xs).0 ≡ length xs
unfolding visit
visit-length i xs = elim (Option-cases (get_elem? xs i)) [
  | inl e ↦ ground arith
  | inr (a, e) ↦ ground (arith, length-set xs i (doom a))
]

pass_from-length : (n i : ℕ) (xs : List Slot) → length (pass_from n i xs).0 ≡ length xs
unfolding pass_from
pass_from-length zero i xs = refl
pass_from-length (suc n) i xs =
    omega (arith, pass_from-length n (suc i) (visit i xs).0, visit-length i xs)

get_elem?-lt : (xs : List Slot) (i : ℕ) (a : Slot) → get_elem? xs i ≡ some a → i < length xs
get_elem?-lt [] i a e = ground arith
get_elem?-lt (x ∷ xs) zero a e = omega arith
get_elem?-lt (x ∷ xs) (suc i) a e = omega (arith, get_elem?-lt xs i a e)

-- A whole pass closes the table one level deeper.
pass-IsClosed :
    (k : ℕ) (xs : List Slot) → IsLinked xs → IsClosed k 0 xs → IsClosed (suc k) 0 (pass xs).0
unfolding pass
pass-IsClosed k xs l c j a p e o f d h =
    let r = pass_from-IsClosed k (length xs) 0 (length xs) xs (omega arith) l c in
    r j a p e o f d (
      ground (
        arith,
        get_elem?-lt (pass_from (length xs) 0 xs).0 j a e,
        pass_from-length (length xs) 0 xs,
      ))

pass-IsLinked : (xs : List Slot) → IsLinked xs → IsLinked (pass xs).0
unfolding pass
pass-IsLinked xs l = pass_from-IsLinked (length xs) 0 xs l

pass-unchanged : (xs : List Slot) → (pass xs).1 ≡ false → (pass xs).0 ≡ xs
unfolding pass
pass-unchanged xs h = pass_from-unchanged (length xs) 0 xs h

-- Where a pass marks nothing, the table is closed at every depth.
still-IsClosed :
    (k m : ℕ) (xs : List Slot)
    → IsLinked xs
    → (pass xs).0 ≡ xs
    → IsClosed k 0 xs
    → IsClosed (m + k) 0 xs
still-IsClosed k zero xs l e c =
    let e' : k ≡ 0 + k = omega arith in subst (λ j. IsClosed j 0 xs) e' c
still-IsClosed k (suc m) xs l e c =
    let e' : suc (m + k) ≡ suc m + k = omega arith in
    subst (λ j. IsClosed j 0 xs) e'
      (subst (IsClosed (suc (m + k)) 0) e
        (pass-IsClosed (m + k) xs l (still-IsClosed k m xs l e c)))

pub passes-IsClosed :
    (n k : ℕ) (xs : List Slot) → IsLinked xs → IsClosed k 0 xs → IsClosed (n + k) 0 (passes n xs)
unfolding passes
passes-IsClosed zero k xs l c = let e : k ≡ 0 + k = omega arith in subst (λ j. IsClosed j 0 xs) e c
passes-IsClosed (suc n) k xs l c = elim (Bool-cases (pass xs).1) [
  | inl t ↦
      let e : n + suc k ≡ suc n + k = omega arith in
      rw (t, passes)
        (subst (λ j. IsClosed j 0 (passes n (pass xs).0)) e
          (passes-IsClosed n (suc k) (pass xs).0 (pass-IsLinked xs l) (pass-IsClosed k xs l c)))
  | inr f ↦
      rw (f, pass-unchanged xs f, passes) (still-IsClosed k (suc n) xs l (pass-unchanged xs f) c)
]
