-- ===== src/Regions/Unique.antt =====
-- One executable region per address space, and where it lies
-- (core/oskernel/src/executable_region.cpp).
use enml.Base.{
  ℕ, zero, suc, replicate, if◌then◌else◌, true, none, some, List, [], ◌∷◌, ok, err, ◌≡◌, ◌==◌, inl,
  inr, arith, Option-cases, Bool-cases, subst,
}
use enml.Capability.{AddressSpaceIdentity, same_identity, max_address_space_epochs}
use enml.Regions.{
  ExecutableRegion, ExecutableRegionTable, invalid_space, already_executable, not_executable,
  is_valid_region, no_region, belongs, init, find_region, put_region, drop_region, record_region,
  region_for, forget,
}

-- No space has two regions.
abbrev pub IsSingle : List ExecutableRegion → Type 0
IsSingle [] = Unit
IsSingle (a ∷ rest) = (is_valid_region a ≡ true → find_region a.space rest ≡ none) × IsSingle rest

find_region-put :
    (region : ExecutableRegion) (space : AddressSpaceIdentity) (xs ys : List ExecutableRegion)
    → is_valid_region region ≡ true
    → find_region region.space xs ≡ none
    → put_region region xs ≡ some ys
    → find_region space ys ≡ (if belongs space region then some region else find_region space xs)
unfolding find_region put_region
find_region-put region space [] ys v n e = ground arith
find_region-put region space (x ∷ xs) ys v n e = elim (Option-cases (put_region region xs)) [
  | inl q ↦ ground arith
  | inr (zs, q) ↦ ground (arith, find_region-put region space xs zs v)
]

find_region-drop :
    (space other : AddressSpaceIdentity) (xs : List ExecutableRegion)
    → IsSingle xs
    → find_region other (drop_region space xs)
      ≡ (if same_identity space other then none else find_region other xs)
unfolding find_region drop_region
find_region-drop space other [] u = ground arith
find_region-drop space other (x ∷ xs) u = ground (arith, u.0, find_region-drop space other xs u.1)

IsSingle-put :
    (region : ExecutableRegion) (xs ys : List ExecutableRegion)
    → is_valid_region region ≡ true
    → find_region region.space xs ≡ none
    → put_region region xs ≡ some ys
    → IsSingle xs
    → IsSingle ys
unfolding find_region put_region
IsSingle-put region [] ys v n e u = ground arith
IsSingle-put region (x ∷ xs) ys v n e u = elim (Bool-cases (is_valid_region x)) [
  | inr f ↦
      let q : region ∷ xs ≡ ys = ground arith in subst IsSingle q ((λ _. ground (arith, f, n)), u.1)
  | inl t ↦ elim (Option-cases (put_region region xs)) [
    | inl q ↦ ground arith
    | inr (zs, q) ↦
        let r : x ∷ zs ≡ ys = ground arith in
        subst IsSingle r (
          (λ _. ground (arith, t, n, u.0, find_region-put region x.space xs zs v)),
          IsSingle-put region xs zs v (ground (arith, n)) q u.1,
        )
  ]
]

-- Each call of the table.
pub data Call : Type 0 where
  records : AddressSpaceIdentity → ℕ → ℕ → Call
  forgets : AddressSpaceIdentity → Call

unfoldable pub step : ExecutableRegionTable → Call → ExecutableRegionTable
step t (records space base size) = (record_region space base size t).0
step t (forgets space) = (forget space t).0

IsSingle-drop :
    (space : AddressSpaceIdentity) (xs : List ExecutableRegion)
    → IsSingle xs
    → IsSingle (drop_region space xs)
unfolding drop_region
IsSingle-drop space [] u = u
IsSingle-drop space (x ∷ xs) u =
    ground (arith, u.0, u.1, IsSingle-drop space xs u.1, find_region-drop space x.space xs u.1)

step-IsSingle :
    (t : ExecutableRegionTable) (c : Call) → IsSingle t.regions → IsSingle (step t c).regions
unfolding step record_region forget
step-IsSingle t (records space base size) u =
    let region : ExecutableRegion = record { space = space; base = base; length = size } in
    elim (Option-cases (put_region region t.regions)) [
      | inl q ↦ ground arith
      | inr (ys, q) ↦ ground (arith, IsSingle-put region t.regions ys)
    ]
step-IsSingle t (forgets space) u = ground (arith, IsSingle-drop space t.regions u)

unfoldable pub run : ExecutableRegionTable → List Call → ExecutableRegionTable
run t [] = t
run t (c ∷ cs) = run (step t c) cs

run-IsSingle :
    (t : ExecutableRegionTable) (cs : List Call) → IsSingle t.regions → IsSingle (run t cs).regions
unfolding run
run-IsSingle t [] u = u
run-IsSingle t (c ∷ cs) u = run-IsSingle (step t c) cs (step-IsSingle t c u)

IsSingle-replicate : (n : ℕ) → IsSingle (replicate n no_region)
IsSingle-replicate zero = tt
IsSingle-replicate (suc n) = ((λ e. ground (arith, e)), IsSingle-replicate n)

-- After any calls on a new table, no address space has two executable regions.
pub regions-IsSingle : (cs : List Call) → IsSingle (run init cs).regions
unfolding init
regions-IsSingle cs = run-IsSingle init cs (IsSingle-replicate max_address_space_epochs)

-- Where no space has two regions, a region that is recorded is the one its space has, every other
-- space's answer is as it was, a second one of whatever base and length is refused and changes
-- nothing, and once it is forgotten the space has none.
pub record_region-region_for :
    (space other : AddressSpaceIdentity) (base size again more : ℕ) (t : ExecutableRegionTable)
    → IsSingle t.regions
    → (record_region space base size t).1 ≡ ok tt
    → let t' = (record_region space base size t).0 in
      let region : ExecutableRegion = record { space = space; base = base; length = size } in
      (region_for other t' ≡ (if same_identity space other then ok region else region_for other t))
      × (record_region space again more t'
          ≡ (t', err (if more == 0 then invalid_space else already_executable)))
      × (region_for space (forget space t').0 ≡ err not_executable)
unfolding record_region region_for forget
record_region-region_for space other base size again more t u h =
    let region : ExecutableRegion = record { space = space; base = base; length = size } in
    elim (Option-cases (find_region space t.regions)) [
      | inr (a, p) ↦ absurd (ground arith)
      | inl p ↦ elim (Option-cases (put_region region t.regions)) [
        | inl q ↦ absurd (ground arith)
        | inr (ys, q) ↦
            let v : IsSingle ys = IsSingle-put region t.regions ys (ground arith) p q u in
            ground (
              arith,
              p,
              q,
              find_region-put region other t.regions ys,
              find_region-put region space t.regions ys,
              find_region-drop space space ys v,
            )
      ]
    ]
