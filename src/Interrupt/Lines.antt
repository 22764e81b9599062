-- ===== src/Interrupt/Lines.antt =====
-- One interrupt line as a state machine of its own (core/oskernel/src/interrupt.cpp).
use enml.Base.{ltb, ℕ, zero, suc, ◌==◌, if◌then◌else◌, false, ◌&&◌, some, ◌≡◌, refl, arith}
use enml.Table.{find}
use enml.Interrupt.{
  InterruptTable, Slot, InterruptState, attached, pending, in_service, slot_keyed, is_attached,
  is_pending, is_in_service, raise, record_assertion, collect, requeue, unmask,
}
use enml.Interrupt.Invariant.{Inv}
use enml.Interrupt.Run.{Call, attaches, detaches, begins, ends, dispatches, detaches_all, step}
use enml.Interrupt.Accounting.{gives_up, next_slot, next_slot-owner, step-next_slot}

-- A line waits for an interrupt, has asserted and waits for its driver, or is in service while the
-- assertions that come meanwhile are counted.
pub data Line : Type 0 where
  idle : Line
  waiting serving : ℕ → Line

abbrev in_state : InterruptState → ℕ → Line
in_state attached n = idle
in_state pending n = waiting n
in_state in_service n = serving n

abbrev pub line : Slot → Line
line a = in_state a.state a.assertions

-- One more assertion, up to the largest number of 32 bits.
abbrev counted : ℕ → ℕ
counted n = if n == 0xFFFF_FFFF then n else suc n

abbrev asserted : Line → Line
asserted idle = waiting 1
asserted (waiting n) = waiting (counted n)
asserted (serving n) = serving (counted n)

abbrev begun : Line → Line
begun (waiting n) = serving 0
begun x = x

abbrev ended : Line → Line
ended (serving zero) = idle
ended (serving (suc n)) = waiting (suc n)
ended x = x

-- What a call makes of the line of `source`, which `owner` has.
abbrev pub next_line : ℕ → ℕ → Call → Line → Line
next_line owner source (dispatches s) x = if s == source then asserted x else x
next_line owner source (begins d s) x = if d == owner && s == source then begun x else x
next_line owner source (ends d s) x = if d == owner && s == source then ended x else x
next_line owner source _ x = x

-- The writes of the code, read as steps of the line.
line-asserted :
    (a : Slot) (x : InterruptState)
    → a.state ≡ x
    → line (if is_attached a.state then raise a else record_assertion a) ≡ asserted (line a)
line-asserted a attached e = ground (arith, e)
line-asserted a pending e = ground (arith, e)
line-asserted a in_service e = ground (arith, e)

line-begun :
    (a : Slot) (x : InterruptState)
    → a.state ≡ x
    → line (if is_pending a.state then collect a else a) ≡ begun (line a)
line-begun a attached e = ground (arith, e)
line-begun a pending e = ground (arith, e)
line-begun a in_service e = ground (arith, e)

line-ended :
    (a : Slot) (x : InterruptState) (n : ℕ)
    → a.state ≡ x
    → a.assertions ≡ n
    → line
        (if is_in_service a.state then (if ltb 0 a.assertions then requeue a else unmask a) else a)
      ≡ ended (line a)
line-ended a attached n e q = ground (arith, e)
line-ended a pending n e q = ground (arith, e)
line-ended a in_service zero e q = ground (arith, e, q)
line-ended a in_service (suc n) e q = ground (arith, e, q)

line-next_slot :
    (source : ℕ) (c : Call) (a : Slot)
    → line (next_slot source c a) ≡ next_line a.owner source c (line a)
line-next_slot source (attaches d s) a = refl
line-next_slot source (detaches d s) a = refl
line-next_slot source (detaches_all d) a = refl
line-next_slot source (dispatches s) a = ground (arith, line-asserted a a.state refl)
line-next_slot source (begins d s) a = ground (arith, line-begun a a.state refl)
line-next_slot source (ends d s) a = ground (arith, line-ended a a.state a.assertions refl refl)

-- Under the invariant an attached line goes through its states as the state machine of a line does, for every
-- call by which the owner does not give it up, and keeps its owner.
pub step-next_line :
    (t : InterruptTable) (source : ℕ) (a : Slot)
    → Inv t
    → find source t.slots ≡ some a
    → (c : Call) → gives_up a.owner source c ≡ false
    → (b : Slot) × (find source (step t c).slots ≡ some b)
      × (b.owner ≡ a.owner)
      × (line b ≡ next_line a.owner source c (line a))
step-next_line t source a v e c g = (
  next_slot source c a,
  step-next_slot t source a v e c g,
  next_slot-owner source c a,
  line-next_slot source c a,
)
