-- ===== src/Scheduler/Choice.antt =====
-- Whom Scheduler::choose picks (core/oskernel/src/scheduler.cpp).
use enml.Base.{
  ℕ, if◌then◌else◌, Bool, true, false, ◌&&◌, Option, none, some, List, [], ◌∷◌, ◌≡◌, arith, ◌≢◌,
  ◌⊎◌, inl, inr, Bool-cases,
}
use enml.Table.{first, IsKeyed, exists_where}
use enml.Table.Laws.{first_sound}
use enml.Scheduler.{Slot, slot_keyed, beats, better, pick}

-- The scan ends with a slot that it saw, or with the one that it began with, and nothing that it
-- saw beats it.
pub record IsTop (chosen : Option Slot) (xs : List Slot) (r : Slot) : Type 0 where
  pub seen : (chosen ≡ some r) ⊎ ((first r.thread xs ≡ some r) × (r.runnable ≡ true))
  pub first_kept : (c : Slot) → chosen ≡ some c → beats c r ≡ false
  pub unbeaten : (j : ℕ) (a : Slot) → first j xs ≡ some a → a.runnable ≡ true → beats a r ≡ false

beats_trans : (a b c : Slot) → beats a b ≡ false → beats b c ≡ false → beats a c ≡ false
beats_trans a b c h k = ground arith

IsTop-cons :
    (chosen : Option Slot) (a : Slot) (rest : List Slot) (r : Slot)
    → IsKeyed (a ∷ rest)
    → IsTop (if a.occupied && a.runnable then better chosen a else chosen) rest r
    → IsTop chosen (a ∷ rest) r
unfolding first
IsTop-cons none a rest r u t = record {
  seen = ground (arith, u.0, t.seen, first_sound r.thread rest r);
  first_kept = λ c e. ground arith;
  unbeaten = λ j b e h. ground (arith, t.unbeaten j b, t.first_kept a);
}
IsTop-cons (some c) a rest r u t = record {
  seen = ground (arith, u.0, t.seen, first_sound r.thread rest r);
  first_kept = λ d e. ground (arith, t.first_kept d, t.first_kept a, beats_trans d a r);
  unbeaten =
      λ j b e h. ground (arith, t.unbeaten j b, t.first_kept a, t.first_kept c, beats_trans a c r);
}

pub pick-IsTop :
    (chosen : Option Slot) (xs : List Slot) (r : Slot)
    → IsKeyed xs
    → pick chosen xs ≡ some r
    → IsTop chosen xs r
unfolding pick first
pick-IsTop chosen [] r u e = record {
  seen = inl e;
  first_kept = λ c q. ground arith;
  unbeaten = λ j a q. ground arith;
}
pick-IsTop chosen (a ∷ rest) r u e =
    IsTop-cons chosen a rest r u
      (pick-IsTop (if a.occupied && a.runnable then better chosen a else chosen) rest r u.1 e)

pick-some : (c : Slot) (xs : List Slot) → pick (some c) xs ≢ none
unfolding pick
pick-some c [] e = ground arith
pick-some c (x ∷ rest) e = ground (arith, pick-some c rest, pick-some x rest)

-- The scan ends with no slot only where none is runnable.
pub pick-none :
    (j : ℕ) (a : Slot) (xs : List Slot)
    → pick none xs ≡ none
    → first j xs ≡ some a
    → a.runnable ≡ false
unfolding pick first
pick-none j a [] e q = ground arith
pick-none j a (x ∷ rest) e q = ground (arith, pick-none j a rest, pick-some x rest)

pub exists_where_sound :
    (p : Slot → Bool) (j : ℕ) (xs : List Slot) (a : Slot)
    → first j xs ≡ some a
    → p a ≡ true
    → exists_where p xs ≡ true
unfolding first exists_where
exists_where_sound p j [] a e h = ground arith
exists_where_sound p j (x ∷ rest) a e h = ground (arith, exists_where_sound p j rest a)

pub exists_where_complete :
    (p : Slot → Bool) (xs : List Slot)
    → IsKeyed xs
    → exists_where p xs ≡ true
    → (a : Slot) × (first a.thread xs ≡ some a) × (p a ≡ true)
unfolding first exists_where
exists_where_complete p [] u h = absurd (ground arith)
exists_where_complete p (x ∷ rest) u h = elim (Bool-cases (x.occupied && p x)) [
  | inl t ↦ (x, ground arith, ground arith)
  | inr n ↦
      let (a, e, q) = exists_where_complete p rest u.1 (ground arith) in
      (a, ground (arith, u.0, first_sound a.thread rest a e), q)
]
