-- ===== src/Interrupt/Accounting.antt =====
-- Assertions and wakeups of one interrupt line, counted over a history
-- (core/oskernel/src/interrupt.cpp).
use enml.Base.{
  ℕ, ◌+◌, ◌≤◌, ◌<◌, ltb, ◌==◌, if◌then◌else◌, Bool, true, false, ◌&&◌, some, List, [], ◌∷◌, Result,
  ok, err, ◌≡◌, refl, arith, length, All,
}
use enml.Table.{find}
use enml.Table.Laws.{find-modify, find_sound}
use enml.Table.Every.{find-All}
use enml.Interrupt.{
  InterruptTable, InterruptError, Slot, Dispatch, Service, slot_keyed, is_attached, is_pending,
  is_in_service, assertion_ceiling, dispatch, begin_service, end_service, raise, collect, requeue,
  unmask, record_assertion, is_masked,
}
use enml.Interrupt.Invariant.{Inv, IsSound}
use enml.Interrupt.Run.{
  Call, attaches, detaches, begins, ends, dispatches, detaches_all, step, run, step-Inv, step-frame,
}

-- The assertions that a call hands to a driver of `source`.
abbrev pub handed : Result InterruptError Service → ℕ
handed (ok r) = r.assertions
handed (err e) = 0

abbrev pub collects : ℕ → InterruptTable → Call → ℕ
collects source t (begins d s) = if s == source then handed (begin_service d s t).1 else 0
collects source t _ = 0

abbrev pub collected : ℕ → InterruptTable → List Call → ℕ
collected source t [] = 0
collected source t (c ∷ cs) = collects source t c + collected source (step t c) cs

-- How often the line asserted.
abbrev pub rings : ℕ → Call → ℕ
rings source (dispatches s) = if s == source then 1 else 0
rings source _ = 0

abbrev pub rung : ℕ → List Call → ℕ
rung source [] = 0
rung source (c ∷ cs) = rings source c + rung source cs

-- The wakeups that a call reports for `source`.
abbrev pub woken : Result InterruptError Dispatch → ℕ
woken (ok r) = if r.wake then 1 else 0
woken (err e) = 0

abbrev pub wakes : ℕ → InterruptTable → Call → ℕ
wakes source t (dispatches s) = if s == source then woken (dispatch s t).1 else 0
wakes source t _ = 0

abbrev pub wakeups : ℕ → InterruptTable → List Call → ℕ
wakeups source t [] = 0
wakeups source t (c ∷ cs) = wakes source t c + wakeups source (step t c) cs

-- Calls by which `owner` gives `source` up, or ends its service.
abbrev pub gives_up : ℕ → ℕ → Call → Bool
gives_up owner source (detaches d s) = d == owner && s == source
gives_up owner source (detaches_all d) = d == owner
gives_up owner source _ = false

abbrev pub finishes : ℕ → ℕ → Call → Bool
finishes owner source (ends d s) = d == owner && s == source
finishes owner source c = gives_up owner source c

-- One line on its own: the slot that a call leaves behind, where nobody gives the line up.
abbrev pub next_slot : ℕ → Call → Slot → Slot
next_slot source (dispatches s) a =
    if s == source then (if is_attached a.state then raise a else record_assertion a) else a
next_slot source (begins d s) a =
    if d == a.owner && s == source && is_pending a.state then collect a else a
next_slot source (ends d s) a =
    if d == a.owner && s == source && is_in_service a.state
    then (if ltb 0 a.assertions then requeue a else unmask a)
    else a
next_slot source _ a = a

module _ (t : InterruptTable) (source : ℕ) (a : Slot) (v : Inv t)
    (e : find source t.slots ≡ some a) where
  pub step-next_slot :
      (c : Call)
      → gives_up a.owner source c ≡ false
      → find source (step t c).slots ≡ some (next_slot source c a)
  unfolding step begin_service end_service dispatch
  step-next_slot (attaches d s) g = step-frame t (attaches d s) source a v e refl
  step-next_slot (detaches d s) g = step-frame t (detaches d s) source a v e g
  step-next_slot (detaches_all d) g = step-frame t (detaches_all d) source a v e g
  step-next_slot (begins d s) g = ground (
    arith,
    find_sound source t.slots a e,
    find-All IsSound source t.slots a e v.sound,
    find-modify s source collect t.slots (λ b. (refl, refl)),
  )
  step-next_slot (ends d s) g = ground (
    arith,
    find_sound source t.slots a e,
    find-All IsSound source t.slots a e v.sound,
    find-modify s source requeue t.slots (λ b. (refl, refl)),
    find-modify s source unmask t.slots (λ b. (refl, refl)),
  )
  step-next_slot (dispatches s) g = ground (
    arith,
    find_sound source t.slots a e,
    find-modify s source raise t.slots (λ b. (refl, refl)),
    find-modify s source record_assertion t.slots (λ b. ground arith),
  )

  next_slot-balance :
      (c : Call)
      → gives_up a.owner source c ≡ false
      → a.assertions < assertion_ceiling
      → (next_slot source c a).assertions + collects source t c ≡ a.assertions + rings source c
  unfolding begin_service
  next_slot-balance (attaches d s) g h = refl
  next_slot-balance (detaches d s) g h = refl
  next_slot-balance (detaches_all d) g h = refl
  next_slot-balance (begins d s) g h =
      ground (arith, find-All IsSound source t.slots a e v.sound, find_sound source t.slots a e)
  next_slot-balance (ends d s) g h = ground arith
  next_slot-balance (dispatches s) g h =
      ground (arith, find-All IsSound source t.slots a e v.sound, find_sound source t.slots a e)

  next_slot-quiet :
      (c : Call)
      → finishes a.owner source c ≡ false
      → is_attached a.state ≡ false
      → (wakes source t c ≡ 0) × (is_attached (next_slot source c a).state ≡ false)
  unfolding dispatch
  next_slot-quiet (attaches d s) g h = (refl, h)
  next_slot-quiet (detaches d s) g h = (refl, h)
  next_slot-quiet (detaches_all d) g h = (refl, h)
  next_slot-quiet (begins d s) g h = ground arith
  next_slot-quiet (ends d s) g h = ground arith
  next_slot-quiet (dispatches s) g h = ground arith

pub next_slot-owner : (source : ℕ) (c : Call) (a : Slot) → (next_slot source c a).owner ≡ a.owner
next_slot-owner source (attaches d s) a = refl
next_slot-owner source (detaches d s) a = refl
next_slot-owner source (detaches_all d) a = refl
next_slot-owner source (begins d s) a = ground arith
next_slot-owner source (ends d s) a = ground arith
next_slot-owner source (dispatches s) a = ground arith

rings-le : (source : ℕ) (c : Call) → rings source c ≤ 1
rings-le source (attaches d s) = omega arith
rings-le source (detaches d s) = omega arith
rings-le source (detaches_all d) = omega arith
rings-le source (begins d s) = omega arith
rings-le source (ends d s) = omega arith
rings-le source (dispatches s) = ground arith

-- No call of the list gives `source` up on behalf of `owner`.
abbrev pub IsKept : ℕ → ℕ → List Call → Type 0
IsKept owner source = All λ c. gives_up owner source c ≡ false

-- Under the invariant no assertion is lost and none is invented: while the owner keeps the line, and there is room
-- below the ceiling for as many assertions as there are calls, what the driver has collected plus
-- what is outstanding at the end is what was outstanding at the start plus what the line asserted.
pub run-balance :
    (cs : List Call) (t : InterruptTable) (source : ℕ) (a : Slot)
    → Inv t
    → find source t.slots ≡ some a
    → IsKept a.owner source cs
    → a.assertions + length cs ≤ assertion_ceiling
    → (b : Slot) × (find source (run t cs).slots ≡ some b)
      × (b.assertions + collected source t cs ≡ a.assertions + rung source cs)
unfolding run
run-balance [] t source a v e k h = (a, e, omega arith)
run-balance (c ∷ cs) t source a v e k h =
    let q = next_slot-balance t source a v e c k.0 (omega arith) in
    let (b, found, total) =
      run-balance cs (step t c) source (next_slot source c a) (step-Inv t c v)
        (step-next_slot t source a v e c k.0) (rw (next_slot-owner source c a) k.1)
        (omega (arith, q, rings-le source c)) in
    (b, found, omega (arith, total, q))

-- Calls that leave `source` attached to `owner` and its service unfinished.
abbrev pub IsUnfinished : ℕ → ℕ → List Call → Type 0
IsUnfinished owner source = All λ c. finishes owner source c ≡ false

finishes-gives_up :
    (o source : ℕ) (c : Call) → finishes o source c ≡ false → gives_up o source c ≡ false
finishes-gives_up o source (attaches d s) h = refl
finishes-gives_up o source (detaches d s) h = h
finishes-gives_up o source (detaches_all d) h = h
finishes-gives_up o source (begins d s) h = refl
finishes-gives_up o source (ends d s) h = refl
finishes-gives_up o source (dispatches s) h = refl

run-quiet_slot :
    (cs : List Call) (t : InterruptTable) (source : ℕ) (a : Slot)
    → Inv t
    → find source t.slots ≡ some a
    → is_attached a.state ≡ false
    → IsUnfinished a.owner source cs
    → wakeups source t cs ≡ 0
run-quiet_slot [] t source a v e m k = refl
run-quiet_slot (c ∷ cs) t source a v e m k =
    let q = next_slot-quiet t source a v e c k.0 m in
    omega (
      arith,
      q.0,
      run-quiet_slot cs (step t c) source (next_slot source c a) (step-Inv t c v)
          (step-next_slot t source a v e c (finishes-gives_up a.owner source c k.0)) q.1
          (rw (next_slot-owner source c a) k.1),
    )

wakes-idle :
    (t : InterruptTable) (source : ℕ) (a : Slot)
    → find source t.slots ≡ some a
    → is_attached a.state ≡ true
    → ((dispatch source t).1 ≡ ok (record { owner = a.owner; wake = true; coalesced = false }))
      × (is_attached (next_slot source (dispatches source) a).state ≡ false)
unfolding dispatch
wakes-idle t source a e m = ground (arith, find_sound source t.slots a e)

-- Under the invariant, the first dispatch of an idle line wakes and names its owner, and from there on
-- no dispatch of that line wakes anybody until the owner ends its service or gives the line up,
-- whatever else is called.
pub dispatch-wakes_once :
    (cs : List Call) (t : InterruptTable) (source : ℕ) (a : Slot)
    → Inv t
    → find source t.slots ≡ some a
    → is_masked source t ≡ ok false
    → IsUnfinished a.owner source cs
    → ((dispatch source t).1 ≡ ok (record { owner = a.owner; wake = true; coalesced = false }))
      × (wakeups source (dispatch source t).0 cs ≡ 0)
unfolding is_masked step
dispatch-wakes_once cs t source a v e m k =
    let q = wakes-idle t source a e (ground arith) in
    (
      q.0,
      run-quiet_slot cs (step t (dispatches source)) source (next_slot source (dispatches source) a)
          (step-Inv t (dispatches source) v)
          (step-next_slot t source a v e (dispatches source) refl) q.1
          (rw (next_slot-owner source (dispatches source) a) k),
    )
