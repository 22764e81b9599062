-- ===== src/Capability/Emptied.antt =====
-- What a thread that is gone still holds: nothing (core/oskernel/src/capability.cpp).
use enml.Base.{
  ℕ, zero, suc, ◌==◌, true, false, some, List, [], ◌∷◌, map, ◌≡◌, ◌≢◌, inl, inr, refl, arith,
  Option-cases, Bool-cases, get_elem?, set, length, All, subst,
}
use enml.Table.{find, clear_where, exists_where}
use enml.Table.Every.{find-All}
use enml.Table.Laws.{find_sound}
use enml.Capability.{
  Slot, slot_keyed, empty_slot, CapabilityTable, Claimant, legacy, bound, thread_of, holds,
  max_derivation_depth,
}
use enml.Capability.Revoke.{
  doom, doom_held, is_marked, visit, pass_from, pass, passes, sweep_doomed, revoke_all_held_by,
}

-- Whatever the thread holds is marked.
abbrev IsCaught : ℕ → Slot → Type 0
IsCaught holder a = a.occupied ≡ true → a.holder ≡ holder → a.doomed ≡ true

abbrev pub IsForeign : ℕ → Slot → Type 0
IsForeign holder a = a.occupied ≡ true → a.holder ≢ holder

module _ (holder : ℕ) where
  IsCaught-set :
      (i : ℕ) (b : Slot) (xs : List Slot)
      → IsCaught holder b
      → All (IsCaught holder) xs
      → All (IsCaught holder) (set xs i b)
  IsCaught-set i b [] c h = tt
  IsCaught-set zero b (x ∷ xs) c h = (c, h.1)
  IsCaught-set (suc i) b (x ∷ xs) c h = (h.0, IsCaught-set i b xs c h.1)

  visit-IsCaught :
      (i : ℕ) (xs : List Slot) → All (IsCaught holder) xs → All (IsCaught holder) (visit i xs).0
  unfolding visit
  visit-IsCaught i xs h = elim (Option-cases (get_elem? xs i)) [
    | inl q ↦ let e : xs ≡ (visit i xs).0 = ground arith in subst (All (IsCaught holder)) e h
    | inr (a, q) ↦ elim (Bool-cases (is_marked xs a)) [
      | inl m ↦
          let e : set xs i (doom a) ≡ (visit i xs).0 = ground (arith, q, m) in
          subst (All (IsCaught holder)) e (IsCaught-set i (doom a) xs (λ _ _. refl) h)
      | inr m ↦
          let e : xs ≡ (visit i xs).0 = ground (arith, q, m) in subst (All (IsCaught holder)) e h
    ]
  ]

  pass_from-IsCaught :
      (n i : ℕ) (xs : List Slot)
      → All (IsCaught holder) xs
      → All (IsCaught holder) (pass_from n i xs).0
  unfolding pass_from
  pass_from-IsCaught zero i xs h = h
  pass_from-IsCaught (suc n) i xs h =
      pass_from-IsCaught n (suc i) (visit i xs).0 (visit-IsCaught i xs h)

  passes-IsCaught :
      (n : ℕ) (xs : List Slot) → All (IsCaught holder) xs → All (IsCaught holder) (passes n xs)
  unfolding passes pass
  passes-IsCaught zero xs h = h
  passes-IsCaught (suc n) xs h =
      let once = pass_from-IsCaught (length xs) 0 xs h in
      elim (Bool-cases (pass xs).1) [
        | inl t ↦
            let e : passes n (pass xs).0 ≡ passes (suc n) xs = ground (arith, t) in
            subst (All (IsCaught holder)) e (passes-IsCaught n (pass xs).0 once)
        | inr f ↦
            let e : (pass xs).0 ≡ passes (suc n) xs = ground (arith, f) in
            subst (All (IsCaught holder)) e once
      ]

  held-IsCaught : (xs : List Slot) → All (IsCaught holder) (map (doom_held holder) xs)
  held-IsCaught [] = tt
  held-IsCaught (x ∷ xs) = ((λ o e. ground (arith, o, e)), held-IsCaught xs)

  swept-IsForeign :
      (xs : List Slot)
      → All (IsCaught holder) xs
      → All (IsForeign holder) (clear_where (λ a. a.doomed) empty_slot xs)
  unfolding clear_where
  swept-IsForeign [] h = tt
  swept-IsForeign (x ∷ xs) h = ((λ o e. ground (arith, o, e, h.0)), swept-IsForeign xs h.1)

  absent-IsForeign :
      (xs : List Slot)
      → exists_where (λ a. a.holder == holder) xs ≡ false
      → All (IsForeign holder) xs
  unfolding exists_where
  absent-IsForeign [] e = tt
  absent-IsForeign (x ∷ xs) e =
      ((λ o h. ground (arith, e, o, h)), absent-IsForeign xs (ground (arith, e)))

  foreign_holder :
      (claimant : Claimant) (capability : ℕ) (t : CapabilityTable) (a : Slot)
      → thread_of claimant ≡ holder
      → find capability t.slots ≡ some a
      → (a.occupied ≡ true) × (a.id ≡ capability) × (capability ≢ 0)
      → IsForeign holder a
      → holds claimant capability t ≡ false
  unfolding holds
  foreign_holder (legacy x) capability t a e q s f = ground (arith, e, q, s, f)
  foreign_holder (bound x) capability t a e q s f = ground (arith, e, q, s, f)

  foreign-holds :
      (claimant : Claimant) (capability : ℕ) (t : CapabilityTable)
      → thread_of claimant ≡ holder
      → All (IsForeign holder) t.slots
      → holds claimant capability t ≡ false
  unfolding holds
  foreign-holds claimant capability t e h = elim (Option-cases (find capability t.slots)) [
    | inl q ↦ ground (arith, q)
    | inr (a, q) ↦
        foreign_holder claimant capability t a e q (find_sound capability t.slots a q)
          (find-All (IsForeign holder) capability t.slots a q h)
  ]

  revoke_all_held_by-IsForeign :
      (t : CapabilityTable)
      → holder ≢ 0
      → All (IsForeign holder) (revoke_all_held_by holder t).0.slots
  unfolding revoke_all_held_by sweep_doomed
  revoke_all_held_by-IsForeign t n =
      elim (Bool-cases (exists_where (λ a. a.holder == holder) t.slots)) [
        | inr f ↦
            let same : t.slots ≡ (revoke_all_held_by holder t).0.slots = ground (arith, f) in
            subst (All (IsForeign holder)) same (absent-IsForeign t.slots f)
        | inl e ↦
            let marked = passes max_derivation_depth (map (doom_held holder) t.slots) in
            let same : clear_where (λ a. a.doomed) empty_slot marked
                ≡ (revoke_all_held_by holder t).0.slots =
              ground (arith, e) in
            subst (All (IsForeign holder)) same (
              swept-IsForeign marked (
                passes-IsCaught max_derivation_depth (map (doom_held holder) t.slots)
                  (held-IsCaught t.slots)))
      ]

  pub revoke_all_held_by-holds :
      (t : CapabilityTable) (claimant : Claimant) (capability : ℕ)
      → holder ≢ 0
      → thread_of claimant ≡ holder
      → holds claimant capability (revoke_all_held_by holder t).0 ≡ false
  revoke_all_held_by-holds t claimant capability n e =
      foreign-holds claimant capability (revoke_all_held_by holder t).0 e
        (revoke_all_held_by-IsForeign t n)
