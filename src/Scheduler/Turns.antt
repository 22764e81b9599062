-- ===== src/Scheduler/Turns.antt =====
-- Turns and slices in one decision of Scheduler::choose (core/oskernel/src/scheduler.cpp).

use enml.Base.{
  ℕ, ◌+◌, ◌≤◌, ◌<◌, true, false, none, some, List, ◌≡◌, refl, arith, ◌≢◌, ◌⊎◌, inl, inr,
  Option-cases, Bool-cases, length, u64_mod,
}
use enml.Table.{first, find}
use enml.Table.Laws.{find_sound, find-eq-first}
use enml.Scheduler.{
  Scheduler, Slot, slot_keyed, max_threads, choose, charge, is_spent, refill, replenish, pick,
  thread_of,
}
use enml.Scheduler.Refill.{
  turn, find-replenish, IsKeyed-replenish, count_live-replenish, length-replenish, replenish-next,
  turn-ge, turn-lt, turn_inj,
}
use enml.Scheduler.Invariant.{Inv, IsOrdered}
use enml.Scheduler.Choose.{
  charged, charged-Inv, charged-IsOrdered, billed, find-choose, choose-remaining, choose-best,
}

pub choose-Inv : (now : ℕ) (s : Scheduler) → Inv s → Inv (choose now s).0
unfolding choose
choose-Inv now s v = record {
  keyed = IsKeyed-replenish s.next_sequence (charge now s) w.keyed;
  counted = ground (arith, w.counted, count_live-replenish s.next_sequence (charge now s));
  sized = ground (arith, w.sized, length-replenish s.next_sequence (charge now s));
  present = present;
  capped = λ j a e. (choose-remaining now s v j a e).1;
}
  where
    w : Inv (charged now s)
    w = charged-Inv now s v

    slots : List Slot
    slots = (replenish s.next_sequence (charge now s)).0

    present :
        thread_of (pick none slots) ≢ 0
        → (a : Slot) × (find (thread_of (pick none slots)) slots ≡ some a)
    present n =
        let (a, e, h, k) = choose-best now s v (thread_of (pick none slots)) refl n in (a, e)

module _ (now : ℕ) (s : Scheduler) (v : Inv s) (o : IsOrdered s)
    (room : s.next_sequence + max_threads < u64_mod) where
  fits : s.next_sequence + length (charge now s) < u64_mod
  fits = ground (arith, (charged-Inv now s v).sized)

  -- A thread keeps its turn, or its slice was spent and it gets a number that no thread had.
  pub settled-turn :
      (j : ℕ) (a : Slot)
      → find j (choose now s).0.slots ≡ some a
      → (c : Slot) × (first j (charge now s) ≡ some c)
        × (((is_spent c ≡ false) × (a ≡ c) × (a.sequence < s.next_sequence))
            ⊎ ((is_spent c ≡ true)
                × (a ≡ refill (turn j s.next_sequence (charge now s)) c)
                × (s.next_sequence ≤ a.sequence)
                × (a.sequence < (choose now s).0.next_sequence)))
  unfolding choose
  settled-turn j a e = elim (Option-cases (find j (charge now s))) [
    | inl q ↦ absurd (ground (arith, find-replenish j s.next_sequence (charge now s)))
    | inr (c, q) ↦ (
      c,
      ground (arith, find-eq-first j (charge now s) (charged-Inv now s v).keyed),
      elim (Bool-cases (is_spent c)) [
        | inr n ↦ inl (
          n,
          ground (arith, find-replenish j s.next_sequence (charge now s)),
          ground (
            arith,
            find-replenish j s.next_sequence (charge now s),
            (charged-IsOrdered now s o).below j c q,
          ),
        )
        | inl t ↦ inr (
          t,
          ground (arith, find-replenish j s.next_sequence (charge now s)),
          ground (
            arith,
            find-replenish j s.next_sequence (charge now s),
            turn-ge j s.next_sequence (charge now s) fits,
          ),
          ground (
            arith,
            find-replenish j s.next_sequence (charge now s),
            find-eq-first j (charge now s) (charged-Inv now s v).keyed,
            turn-lt j s.next_sequence (charge now s) c fits,
          ),
        )
      ],
    )
  ]

  pub next_sequence-choose : s.next_sequence ≤ (choose now s).0.next_sequence
  unfolding choose
  next_sequence-choose = omega (arith, replenish-next s.next_sequence (charge now s) fits)

  pub choose-IsOrdered : IsOrdered (choose now s).0
  choose-IsOrdered = record {
    below = λ j a e. ground (arith, settled-turn j a e, next_sequence-choose);
    distinct = λ j k a b e f q.
        let (c, x, h) = settled-turn j a e in
        let (d, y, g) = settled-turn k b f in
        ground (
          arith,
          h,
          g,
          turn_inj j k s.next_sequence (charge now s) c d fits x,
          (charged-IsOrdered now s o).distinct j k c d,
          find-eq-first j (charge now s) (charged-Inv now s v).keyed,
          find-eq-first k (charge now s) (charged-Inv now s v).keyed,
        );
  }

  -- Round-robin, under the invariant and with room left in the turn counter: a thread whose slice is spent when a decision is made does not run next while
  -- another thread of its priority is runnable with some of its slice left.
  pub choose-rotates :
      (j k : ℕ) (a b : Slot)
      → find j s.slots ≡ some a
      → find k s.slots ≡ some b
      → is_spent (billed now s a) ≡ true
      → is_spent (billed now s b) ≡ false
      → b.runnable ≡ true
      → b.effective ≡ a.effective
      → (choose now s).1.thread ≢ j
  choose-rotates j k a b e f spent left run same q =
      let (c, x, h, best) = choose-best now s v j q (find_sound j s.slots a e).2 in
      let was : c ≡ refill (turn j s.next_sequence (charge now s)) (billed now s a) =
        ground (arith, find-choose now j s) in
      let now_there : find k (choose now s).0.slots ≡ some (billed now s b) =
        ground (arith, find-choose now k s) in
      ground (
        arith,
        was,
        turn-ge j s.next_sequence (charge now s) fits,
        o.below k b f,
        best k (billed now s b) now_there,
      )
