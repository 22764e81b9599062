-- ===== src/Kernel/Admission.antt =====
-- The kernel's calls that create and destroy address spaces and admit threads to them
-- (core/oskernel/src/kernel.cpp, address_space_syscall.cpp, thread_admission.cpp). A retirement
-- that was begun is named by the epoch that retires.
use Prim.Native.Nat.{bit_or}
use enml.Base.{ℕ, ◌==◌, if◌then◌else◌, true, not, Result, ok, err}
use enml.Capability.{same_identity, legacy, mint}
use enml.Capability.Revoke.{revoke}
use enml.Spaces.{AddressSpaceEpoch, identity, acquire, begin_retire, complete_retire}
use enml.Spaces
use enml.Regions.{ExecutableRegionTable, region_for}
use enml.Translations.{SealedTranslationRoot, ProcessTranslationTable, is_valid_root, bind}
use enml.Rendezvous.{effective_priority_of}
use enml.Objects.{
  address_space_capability, address_space_identity_for_capability, address_space_object_id,
  address_space_authority_object, address_space_right_hold, address_space_right_destroy,
  address_space_right_create, address_space_right_admit, invalid_capability,
}
use enml.Kernel.{
  Kernel, KernelError, authority_error, epoch_error, thread_error, capability_error,
  translation_error, invalid_stack, no_executable_region, entry_not_region_base, invalid_root,
}
use enml.Kernel.Threads.{create_admitted_thread, destroy_thread, issue}
use enml.Kernel.Memory.{resolve_space}

pub record AddressSpaceCreateSyscall : Type 0 where
  pub authority : ℕ
  pub root_grant : ℕ

unfoldable pub decode_address_space_create_syscall :
    ℕ → ℕ → Result KernelError AddressSpaceCreateSyscall
decode_address_space_create_syscall x0 x1 =
    if x0 == 0
    then err (authority_error invalid_capability)
    else if x1 == 0
    then err (authority_error invalid_capability)
    else ok (record { authority = x0; root_grant = x1 })

unfoldable pub decode_address_space_destroy_syscall : ℕ → Result KernelError ℕ
decode_address_space_destroy_syscall x0 =
    if x0 == 0 then err (authority_error invalid_capability) else ok x0

pub record ThreadCreateSyscall : Type 0 where
  pub space : ℕ
  pub stack : ℕ

unfoldable pub decode_thread_create_syscall : ℕ → ℕ → Result KernelError ThreadCreateSyscall
decode_thread_create_syscall x0 x1 =
    if x0 == 0
    then err (authority_error invalid_capability)
    else if x1 == 0
    then err invalid_stack
    else ok (record { space = x0; stack = x1 })

pub record AddressSpaceCreation : Type 0 where
  pub epoch : AddressSpaceEpoch
  pub capability : ℕ

abbrev pub creation_rights : ℕ
creation_rights =
    bit_or (bit_or address_space_right_hold address_space_right_destroy) address_space_right_admit

-- Gives back an epoch that nothing has used.
abbrev pub give_back : AddressSpaceEpoch → Spaces.Authority → Spaces.Authority
give_back e epochs =
    let (epochs', retiring) = begin_retire e epochs in
    elim retiring [ err _ ↦ epochs' | ok r ↦ (complete_retire r epochs').0 ]

unfoldable pub address_space_create :
    ℕ
    → ℕ
    → Spaces.Authority
    → Kernel
    → Kernel × Spaces.Authority × Result KernelError AddressSpaceCreation
address_space_create creator authority epochs k =
    elim (address_space_capability creator authority k.capabilities address_space_right_create
      address_space_authority_object) [
        | err e ↦ (k, epochs, err (authority_error e))
        | ok _ ↦
            let (epochs', acquired) = acquire epochs in
            elim acquired [
              | err e ↦ (k, epochs', err (epoch_error e))
              | ok e ↦
                  let (capabilities, minted) =
                    mint (legacy creator) (address_space_object_id (identity e)) creation_rights
                      true k.capabilities in
                  let k' = record k { capabilities = capabilities } in
                  elim minted [
                    | err x ↦ (k', give_back e epochs', err (capability_error x))
                    | ok c ↦ (k', epochs', ok (record { epoch = e; capability = c }))
                  ]
            ]
      ]

unfoldable pub address_space_begin_destroy :
    ℕ → ℕ → Spaces.Authority → Kernel → Spaces.Authority × Result KernelError AddressSpaceEpoch
address_space_begin_destroy owner space epochs k =
    elim (resolve_space owner space address_space_right_destroy epochs k) [
      | err e ↦ (epochs, err e)
      | ok (_, e) ↦
          let (epochs', retiring) = begin_retire e epochs in
          (epochs', elim retiring [ err x ↦ err (epoch_error x) | ok r ↦ ok r ])
    ]

unfoldable pub address_space_complete_destroy :
    ℕ
    → ℕ
    → AddressSpaceEpoch
    → Spaces.Authority
    → Kernel
    → Kernel × Spaces.Authority × Result KernelError (Unit {0})
address_space_complete_destroy owner space retiring epochs k =
    elim (address_space_identity_for_capability owner space k.capabilities
      address_space_right_destroy) [
        | err e ↦ (k, epochs, err (authority_error e))
        | ok i ↦
            if not (same_identity (identity retiring) i)
            then (k, epochs, err (authority_error invalid_capability))
            else let (epochs', completed) = complete_retire retiring epochs in
              elim completed [
                | err x ↦ (k, epochs', err (epoch_error x))
                | ok _ ↦
                    let (capabilities, revoked) = revoke (legacy owner) space k.capabilities in
                    (
                      record k { capabilities = capabilities },
                      epochs',
                      elim revoked [ err x ↦ err (capability_error x) | ok _ ↦ ok tt ],
                    )
              ]
      ]

pub record ThreadAdmission : Type 0 where
  pub thread : ℕ
  pub entry : ℕ
  pub stack : ℕ

-- The end of `thread_admit`: a thread is created and bound to the space, or neither.
abbrev pub admit_bound :
    ℕ
    → ℕ
    → ℕ
    → AddressSpaceEpoch
    → SealedTranslationRoot
    → Spaces.Authority
    → ProcessTranslationTable
    → Kernel × Result KernelError (Unit {0})
    → Kernel × ProcessTranslationTable × Result KernelError ThreadAdmission
admit_bound thread entry stack e root epochs translations (k, err x) = (k, translations, err x)
admit_bound thread entry stack e root epochs translations (k, ok _) =
    let (translations', bound) = bind thread e root epochs translations in
    elim bound [
      | err x ↦ ((destroy_thread thread k).0, translations', err (translation_error x))
      | ok _ ↦ (k, translations', ok (record { thread = thread; entry = entry; stack = stack }))
    ]

-- `thread_admit` once the region of the space is known.
abbrev pub admit_at :
    ℕ
    → ℕ
    → ℕ
    → AddressSpaceEpoch
    → SealedTranslationRoot
    → Spaces.Authority
    → ProcessTranslationTable
    → Kernel
    → Kernel × ProcessTranslationTable × Result KernelError ThreadAdmission
admit_at creator entry stack e root epochs translations k =
    let (next, issued) = issue k.next_identifier in
    let k' = record k { next_identifier = next } in
    elim issued [
      | err x ↦ (k', translations, err x)
      | ok thread ↦ elim (effective_priority_of creator k.threads) [
        | err x ↦ (k', translations, err (thread_error x))
        | ok priority ↦
            admit_bound thread entry stack e root epochs translations
              (create_admitted_thread thread priority k')
      ]
    ]

unfoldable pub thread_admit :
    ℕ
    → ℕ
    → ℕ
    → SealedTranslationRoot
    → Spaces.Authority
    → ProcessTranslationTable
    → ExecutableRegionTable
    → Kernel
    → Kernel × ProcessTranslationTable × Result KernelError ThreadAdmission
thread_admit creator space stack root epochs translations executables k =
    if stack == 0
    then (k, translations, err invalid_stack)
    else elim (resolve_space creator space address_space_right_admit epochs k) [
      | err e ↦ (k, translations, err e)
      | ok (i, e) ↦
          if not (is_valid_root root)
          then (k, translations, err invalid_root)
          else elim (region_for i executables) [
            | err _ ↦ (k, translations, err no_executable_region)
            | ok region ↦
                if not (root.entry == region.base)
                then (k, translations, err entry_not_region_base)
                else admit_at creator region.base stack e root epochs translations k
          ]
    ]
