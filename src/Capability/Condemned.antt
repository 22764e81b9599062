-- ===== src/Capability/Condemned.antt =====
-- Which capabilities the marking passes of `sweep_doomed` reach (core/oskernel/src/capability.cpp),
-- against a description by induction on derivations.

use enml.Base.{
  ℕ, zero, suc, ◌≤◌, ◌==◌, true, false, ◌&&◌, Option, none, some, List, map, ◌≡◌, ◌↔◌, inl, inr,
  refl, arith, sym, subst, ap, ◌∙◌, Option-cases, Bool-cases, get_elem?, length,
}
use enml.Base.Arrays.{get_elem?-map, map-set}
use enml.Capability.{Slot, parent_of, max_derivation_depth}
use enml.Capability.Revoke.{doom, is_doomed, is_marked, visit, pass_from, pass, passes}
use enml.Capability.Marking.{
  IsLinked, IsClosed, IsDerived, get_elem?-visit, parent_of_sound, passes-IsClosed,
}

-- The slot at an index is doomed, or derived from one that is.
pub data Condemned (xs : List Slot) : ℕ → Type 0 where
  named :
      {i : ℕ} {a : Slot}
      → get_elem? xs i ≡ some a
      → a.occupied ≡ true
      → a.doomed ≡ true
      → Condemned xs i
  derived :
      {i : ℕ} {a p : Slot}
      → get_elem? xs i ≡ some a
      → a.occupied ≡ true
      → parent_of a xs ≡ some p
      → Condemned xs a.parent_slot
      → Condemned xs i

-- A slot without its mark.
abbrev pub clean : Slot → Slot
clean a = record a { doomed = false }

-- The slots `ys` are reached from `xs` by marking: nothing but marks has changed, no mark was taken
-- back, and whatever is marked is condemned.
pub record IsReached (xs ys : List Slot) : Type 0 where
  pub same : map clean ys ≡ map clean xs
  pub kept :
      (j : ℕ) (a b : Slot)
      → get_elem? xs j ≡ some a
      → get_elem? ys j ≡ some b
      → a.doomed ≡ true
      → b.doomed ≡ true
  pub just :
      (j : ℕ) (b : Slot)
      → get_elem? ys j ≡ some b
      → b.occupied ≡ true
      → b.doomed ≡ true
      → Condemned xs j

-- The same slot before the marking.
pub origin :
    (xs ys : List Slot) (j : ℕ) (b : Slot)
    → map clean ys ≡ map clean xs
    → get_elem? ys j ≡ some b
    → (a : Slot) × (get_elem? xs j ≡ some a) × (clean a ≡ clean b)
origin xs ys j b s e = elim (Option-cases (get_elem? xs j)) [
  | inl q ↦ absurd (
      ground (
        arith,
        get_elem?-map clean xs j,
        get_elem?-map clean ys j,
        ap (λ (zs : List Slot). get_elem? zs j) s,
      ))
  | inr (a, q) ↦ (
    a,
    q,
    ground (
      arith,
      get_elem?-map clean xs j,
      get_elem?-map clean ys j,
      ap (λ (zs : List Slot). get_elem? zs j) s,
    ),
  )
]

pub parent_of_origin :
    (xs ys : List Slot) (a b p : Slot)
    → map clean ys ≡ map clean xs
    → clean a ≡ clean b
    → parent_of b ys ≡ some p
    → (q : Slot) × (parent_of a xs ≡ some q) × (clean q ≡ clean p)
unfolding parent_of
parent_of_origin xs ys a b p s c e =
    let (q, f, h) = origin xs ys b.parent_slot p s (parent_of_sound ys b p e).0 in
    (q, ground (arith, parent_of_sound ys b p e), h)

map-clean-visit : (i : ℕ) (ys : List Slot) → map clean (visit i ys).0 ≡ map clean ys
unfolding visit
map-clean-visit i ys = elim (Option-cases (get_elem? ys i)) [
  | inl e ↦ ground arith
  | inr (a, e) ↦ ground (arith, map-set clean ys i a (doom a) e refl)
]

IsReached-refl : (xs : List Slot) → IsReached xs xs
IsReached-refl xs = record {
  same = refl;
  kept = λ j a b e f h. ground arith;
  just = λ j b e o h. named e o h;
}

visit-IsReached : (i : ℕ) (xs ys : List Slot) → IsReached xs ys → IsReached xs (visit i ys).0
visit-IsReached i xs ys r = record {
  same = map-clean-visit i ys ∙ r.same;
  kept = kept;
  just = just;
}
  where
    kept :
        (j : ℕ) (a b : Slot)
        → get_elem? xs j ≡ some a
        → get_elem? (visit i ys).0 j ≡ some b
        → a.doomed ≡ true
        → b.doomed ≡ true
    kept j a b e f h = elim (Option-cases (get_elem? ys j)) [
      | inl q ↦ absurd (ground (arith, get_elem?-visit i j ys))
      | inr (c, q) ↦ ground (arith, get_elem?-visit i j ys, r.kept j a c e q h)
    ]

    marked :
        (j : ℕ) (c : Slot)
        → get_elem? ys j ≡ some c
        → c.occupied ≡ true
        → (p : Option Slot) → parent_of c ys ≡ p
        → is_doomed p ≡ true
        → Condemned xs j
    marked j c q o none e h = absurd (ground arith)
    marked j c q o (some p) e h =
        let s = parent_of_sound ys c p e in
        let (a, f, g) = origin xs ys j c r.same q in
        let (p', f', g') = parent_of_origin xs ys a c p r.same g e in
        let k : c.parent_slot ≡ a.parent_slot = ground arith in
        derived f (ground arith) f' (subst (Condemned xs) k (r.just c.parent_slot p s.0 s.1 h))

    just :
        (j : ℕ) (b : Slot)
        → get_elem? (visit i ys).0 j ≡ some b
        → b.occupied ≡ true
        → b.doomed ≡ true
        → Condemned xs j
    just j b f o h = elim (Option-cases (get_elem? ys j)) [
      | inl q ↦ absurd (ground (arith, get_elem?-visit i j ys))
      | inr (c, q) ↦ elim (Bool-cases (i == j && is_marked ys c)) [
        | inl m ↦ marked j c q (ground arith) (parent_of c ys) refl (ground arith)
        | inr n ↦
            r.just j c q (ground (arith, get_elem?-visit i j ys))
              (ground (arith, get_elem?-visit i j ys))
      ]
    ]

pass_from-IsReached :
    (n i : ℕ) (xs ys : List Slot) → IsReached xs ys → IsReached xs (pass_from n i ys).0
unfolding pass_from
pass_from-IsReached zero i xs ys r = r
pass_from-IsReached (suc n) i xs ys r =
    pass_from-IsReached n (suc i) xs (visit i ys).0 (visit-IsReached i xs ys r)

passes-IsReached_from : (n : ℕ) (xs ys : List Slot) → IsReached xs ys → IsReached xs (passes n ys)
unfolding passes pass
passes-IsReached_from zero xs ys r = r
passes-IsReached_from (suc n) xs ys r = elim (Bool-cases (pass ys).1) [
  | inl t ↦
      rw (t, passes)
        (passes-IsReached_from n xs (pass ys).0 (pass_from-IsReached (length ys) 0 xs ys r))
  | inr f ↦ rw (f, passes) (pass_from-IsReached (length ys) 0 xs ys r)
]

pub passes-IsReached : (n : ℕ) (xs : List Slot) → IsReached xs (passes n xs)
passes-IsReached n xs = passes-IsReached_from n xs xs (IsReached-refl xs)

-- No derivation chain is longer than the passes.
abbrev pub IsShallow : List Slot → Type 0
IsShallow xs =
    (j : ℕ) (a : Slot)
    → get_elem? xs j ≡ some a
    → a.occupied ≡ true
    → a.depth ≤ max_derivation_depth

module _ (xs : List Slot) (l : IsLinked xs) (h : IsShallow xs) where
  final : List Slot
  final = passes max_derivation_depth xs

  final-IsReached : IsReached xs final
  unfolding final
  final-IsReached = passes-IsReached max_derivation_depth xs

  -- A table is closed to depth 0: what stands there is derived from nothing.
  start-IsClosed : IsClosed 0 0 xs
  start-IsClosed j a p e o f d k = absurd (root (l j a e o))
    where
      root : IsDerived xs a → ⊥
      root (inl z) = ground (arith, parent_of_sound xs a p f)
      root (inr (q, g, r)) = ground arith

  -- Condemned slots are all marked when the passes are over.
  Condemned-marked :
      (j : ℕ) → Condemned xs j → (b : Slot) → get_elem? final j ≡ some b → b.doomed ≡ true
  unfolding final
  Condemned-marked j (named e o d) b f = final-IsReached.kept j _ b e f d
  Condemned-marked j (derived {a = a} {p = p} e o g c) b f =
      let r = final-IsReached in
      let (a', e', s) = origin xs final j b r.same f in
      let same : clean b ≡ clean a = ground arith in
      let (q, g', s') = parent_of_origin final xs b a p (sym r.same) same g in
      let at : get_elem? final a.parent_slot ≡ some q =
        ground (arith, parent_of_sound final b q g') in
      let closed = passes-IsClosed max_derivation_depth 0 xs l start-IsClosed in
      closed j b q f (ground arith) g' (Condemned-marked a.parent_slot c q at)
        (ground (arith, h j a e o))

  -- When the passes are over, the marked slots are the condemned ones, and no others.
  pub passes_exact :
      (j : ℕ) (b : Slot)
      → get_elem? (passes max_derivation_depth xs) j ≡ some b
      → b.occupied ≡ true
      → (b.doomed ≡ true) ↔ Condemned xs j
  unfolding final
  passes_exact j b f o = ((λ d. final-IsReached.just j b f o d), λ c. Condemned-marked j c b f)
