-- ===== src/Scheduler/Refill.antt =====
-- The refill loop of Scheduler::choose (core/oskernel/src/scheduler.cpp), slot by slot.
use mathlib.Core.Option
use enml.Base.{
  ℕ, suc, ◌+◌, ◌≤◌, ◌<◌, if◌then◌else◌, true, some, List, [], ◌∷◌, ◌≡◌, refl, arith, length, inc64,
  u64_mod,
}
use enml.Table.{first, find, count_live, count_where, IsKeyed, hits}
use enml.Scheduler.{Slot, slot_keyed, is_spent, refill, replenish}

-- The sequence number at which the loop reaches the slot of thread `j`.
unfoldable pub turn : ℕ → ℕ → List Slot → ℕ
turn j next [] = next
turn j next (a ∷ rest) =
    if hits j a then next else turn j (if is_spent a then inc64 next else next) rest

-- What the loop leaves of a slot that it reaches at a given number.
abbrev pub renewed : ℕ → Slot → Slot
renewed next a = if is_spent a then refill next a else a

pub first-replenish :
    (j next : ℕ) (xs : List Slot)
    → first j (replenish next xs).0 ≡ Option.map (renewed (turn j next xs)) (first j xs)
unfolding first replenish turn
first-replenish j next [] = refl
first-replenish j next (a ∷ rest) =
    ground (arith, first-replenish j next rest, first-replenish j (inc64 next) rest)

pub find-replenish :
    (j next : ℕ) (xs : List Slot)
    → find j (replenish next xs).0 ≡ Option.map (renewed (turn j next xs)) (find j xs)
unfolding find
find-replenish j next xs = ground (arith, first-replenish j next xs)

pub IsKeyed-replenish : (next : ℕ) (xs : List Slot) → IsKeyed xs → IsKeyed (replenish next xs).0
unfolding replenish
IsKeyed-replenish next [] u = u
IsKeyed-replenish next (a ∷ rest) u = ground (
  arith,
  u.0,
  IsKeyed-replenish next rest u.1,
  IsKeyed-replenish (inc64 next) rest u.1,
  first-replenish a.thread next rest,
  first-replenish a.thread (inc64 next) rest,
)

pub count_live-replenish :
    (next : ℕ) (xs : List Slot) → count_live (replenish next xs).0 ≡ count_live xs
unfolding replenish count_live
count_live-replenish next [] = refl
count_live-replenish next (a ∷ rest) =
    ground (arith, count_live-replenish next rest, count_live-replenish (inc64 next) rest)

pub length-replenish : (next : ℕ) (xs : List Slot) → length (replenish next xs).0 ≡ length xs
unfolding replenish
length-replenish next [] = refl
length-replenish next (a ∷ rest) =
    ground (arith, length-replenish next rest, length-replenish (inc64 next) rest)

-- Far from the end of the counter, the loop counts up by one for each spent slice, and reaches
-- every slot at a number in between.
pub replenish-next :
    (next : ℕ) (xs : List Slot)
    → next + length xs < u64_mod
    → (replenish next xs).1 ≡ next + count_where is_spent xs
unfolding replenish count_where
replenish-next next [] h = omega arith
replenish-next next (a ∷ rest) h =
    ground (arith, replenish-next next rest, replenish-next (suc next) rest)

pub turn-ge : (j next : ℕ) (xs : List Slot) → next + length xs < u64_mod → next ≤ turn j next xs
unfolding turn
turn-ge j next [] h = omega arith
turn-ge j next (a ∷ rest) h = ground (arith, turn-ge j next rest, turn-ge j (suc next) rest)

-- A thread that is sent to the back gets a number below the counter's new value.
pub turn-lt :
    (j next : ℕ) (xs : List Slot) (a : Slot)
    → next + length xs < u64_mod
    → first j xs ≡ some a
    → is_spent a ≡ true
    → turn j next xs < (replenish next xs).1
unfolding turn first replenish
turn-lt j next [] a h e s = ground arith
turn-lt j next (x ∷ rest) a h e s = ground (
  arith,
  turn-lt j next rest a,
  turn-lt j (suc next) rest a,
  replenish-next next rest,
  replenish-next (suc next) rest,
)

-- No two threads are sent to the back with one number.
pub turn_inj :
    (j k next : ℕ) (xs : List Slot) (a b : Slot)
    → next + length xs < u64_mod
    → first j xs ≡ some a
    → is_spent a ≡ true
    → first k xs ≡ some b
    → is_spent b ≡ true
    → turn j next xs ≡ turn k next xs
    → j ≡ k
unfolding turn first
turn_inj j k next [] a b h e s f t q = ground arith
turn_inj j k next (x ∷ rest) a b h e s f t q = ground (
  arith,
  turn_inj j k next rest a b,
  turn_inj j k (suc next) rest a b,
  turn-ge j (suc next) rest,
  turn-ge k (suc next) rest,
)
