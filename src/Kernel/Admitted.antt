-- ===== src/Kernel/Admitted.antt =====
-- What a new thread begins with (`Kernel::thread_admit` of core/oskernel/src/kernel.cpp).
use enml.Base.{true, ℕ, ◌+◌, Result, ok, err, ◌≡◌, ◌≢◌, inl, inr, arith, Result-cases}
use enml.Capability.{AddressSpaceIdentity}
use enml.Spaces.{AddressSpaceEpoch}
use enml.Spaces
use enml.Regions.{ExecutableRegion, ExecutableRegionTable, region_for}
use enml.Translations.{SealedTranslationRoot, ProcessTranslationTable}
use enml.Rendezvous.{effective_priority_of}
use enml.Objects.{address_space_right_admit}
use enml.Kernel.{Kernel, KernelError}
use enml.Kernel.Memory.{resolve_space}
use enml.Kernel.Threads.{create_admitted_thread, issue}
use enml.Kernel.Admission.{ThreadAdmission, thread_admit, admit_at, admit_bound}
use enml.Kernel.Synchronised.{accepted}
use enml.Kernel.Authorised.{IsOverSpace, resolve_space-IsOverSpace}

pub record IsAdmission (creator space stack : ℕ) (root : SealedTranslationRoot)
    (epochs : Spaces.Authority) (executables : ExecutableRegionTable) (k : Kernel)
    (d : ThreadAdmission) : Type 0 where
  pub identity : AddressSpaceIdentity
  pub over_space : IsOverSpace creator space address_space_right_admit epochs k identity
  pub region : ExecutableRegion
  pub executable : region_for identity executables ≡ ok region
  pub entered : (d.entry ≡ region.base) × (root.entry ≡ region.base)
  pub stacked : (d.stack ≡ stack) × (stack ≢ 0)
  pub issued : (d.thread ≡ k.next_identifier) × (d.thread ≢ 0xFFFF_FFFF)

module _ (entry stack : ℕ) (e : AddressSpaceEpoch) (root : SealedTranslationRoot)
    (epochs : Spaces.Authority) (translations : ProcessTranslationTable) (d : ThreadAdmission) where
  admit_bound-result :
      (thread : ℕ) (p : Kernel × Result KernelError (Unit {0}))
      → (admit_bound thread entry stack e root epochs translations p).2 ≡ ok d
      → (d.thread ≡ thread) × (d.entry ≡ entry) × (d.stack ≡ stack)
  admit_bound-result thread (k, err x) h = absurd (ground arith)
  admit_bound-result thread (k, ok x) h = ground arith

  admit_at-result :
      (creator : ℕ) (k : Kernel)
      → (admit_at creator entry stack e root epochs translations k).2 ≡ ok d
      → ((d.thread ≡ k.next_identifier) × (d.thread ≢ 0xFFFF_FFFF))
        × (d.entry ≡ entry)
        × (d.stack ≡ stack)
  unfolding issue
  admit_at-result creator k h = elim (Result-cases (effective_priority_of creator k.threads)) [
    | inr (x, p) ↦ absurd (ground arith)
    | inl (priority, p) ↦
        let k' = record k { next_identifier = k.next_identifier + 1 } in
        ground (
          arith,
          admit_bound-result k.next_identifier
              (create_admitted_thread k.next_identifier priority k'),
        )
  ]

-- An admission that is accepted is a thread that was created, under an issued number.
abbrev pub IsCreation : Kernel → Kernel → Type 0
IsCreation k k' =
    (next thread priority : ℕ) × (k'
      ≡ (create_admitted_thread thread priority (record k { next_identifier = next })).0)
    × (accepted (create_admitted_thread thread priority (record k { next_identifier = next }))
        ≡ true)

admit_bound-IsCreation :
    (thread entry stack : ℕ) (e : AddressSpaceEpoch) (root : SealedTranslationRoot)
    (epochs : Spaces.Authority) (translations : ProcessTranslationTable)
    (p : Kernel × Result KernelError (Unit {0})) (d : ThreadAdmission)
    → (admit_bound thread entry stack e root epochs translations p).2 ≡ ok d
    → ((admit_bound thread entry stack e root epochs translations p).0 ≡ p.0) × (accepted p ≡ true)
admit_bound-IsCreation thread entry stack e root epochs translations (k, err x) d h =
    absurd (ground arith)
admit_bound-IsCreation thread entry stack e root epochs translations (k, ok x) d h = ground arith

admit_at-IsCreation :
    (creator entry stack : ℕ) (e : AddressSpaceEpoch) (root : SealedTranslationRoot)
    (epochs : Spaces.Authority) (translations : ProcessTranslationTable) (k : Kernel)
    (d : ThreadAdmission)
    → (admit_at creator entry stack e root epochs translations k).2 ≡ ok d
    → IsCreation k (admit_at creator entry stack e root epochs translations k).0
unfolding issue
admit_at-IsCreation creator entry stack e root epochs translations k d h =
    elim (Result-cases (effective_priority_of creator k.threads)) [
      | inr (x, p) ↦ absurd (ground arith)
      | inl (priority, p) ↦
          let thread = k.next_identifier in
          let k' = record k { next_identifier = thread + 1 } in
          let bound =
            admit_bound-IsCreation thread entry stack e root epochs translations
              (create_admitted_thread thread priority k') d in
          (thread + 1, thread, priority, ground (arith, bound), ground (arith, bound))
    ]

pub thread_admit-IsCreation :
    (creator space stack : ℕ) (root : SealedTranslationRoot) (epochs : Spaces.Authority)
    (translations : ProcessTranslationTable) (executables : ExecutableRegionTable) (k : Kernel)
    (d : ThreadAdmission)
    → (thread_admit creator space stack root epochs translations executables k).2 ≡ ok d
    → IsCreation k (thread_admit creator space stack root epochs translations executables k).0
unfolding thread_admit
thread_admit-IsCreation creator space stack root epochs translations executables k d h =
    elim (Result-cases (resolve_space creator space address_space_right_admit epochs k)) [
      | inr (x, p) ↦ absurd (ground arith)
      | inl ((i, e), p) ↦ elim (Result-cases (region_for i executables)) [
        | inr (x, q) ↦ absurd (ground arith)
        | inl (region, q) ↦
            let (next, thread, priority, same, a) =
              admit_at-IsCreation creator region.base stack e root epochs translations k d
                (ground arith) in
            (next, thread, priority, ground (arith, same), a)
      ]
    ]

-- The kernel admits a thread only for a caller that holds the live space with the right to admit, under a
-- number that it issues itself, to begin at the base of the space's executable region, which the sealed
-- root agrees with, on a stack that is not zero.
pub thread_admit-IsAdmission :
    (creator space stack : ℕ) (root : SealedTranslationRoot) (epochs : Spaces.Authority)
    (translations : ProcessTranslationTable) (executables : ExecutableRegionTable) (k : Kernel)
    (d : ThreadAdmission)
    → (thread_admit creator space stack root epochs translations executables k).2 ≡ ok d
    → IsAdmission creator space stack root epochs executables k d
unfolding thread_admit
thread_admit-IsAdmission creator space stack root epochs translations executables k d h =
    elim (Result-cases (resolve_space creator space address_space_right_admit epochs k)) [
      | inr (x, p) ↦ absurd (ground arith)
      | inl ((i, e), p) ↦ elim (Result-cases (region_for i executables)) [
        | inr (x, q) ↦ absurd (ground arith)
        | inl (region, q) ↦
            let result = admit_at-result region.base stack e root epochs translations d creator k in
            record {
              identity = i;
              over_space =
                  resolve_space-IsOverSpace creator space address_space_right_admit epochs k i e p;
              region = region;
              executable = q;
              entered = ground (arith, result);
              stacked = ground (arith, result);
              issued = ground (arith, result);
            }
      ]
    ]
