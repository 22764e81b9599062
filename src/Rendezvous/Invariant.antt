-- ===== src/Rendezvous/Invariant.antt =====
-- The invariant of the rendezvous table (core/oskernel/src/rendezvous.cpp), call by call.
use mathlib.Core.Option
use enml.Base.{
  ℕ, suc, ◌==◌, if◌then◌else◌, Bool, true, false, ◌||◌, none, some, List, map, ◌≡◌, refl, arith,
  ◌≢◌, inl, inr, subst, Option-cases, Bool-cases, length, inc64,
}
use enml.Table.{find, modify, place, count_live, IsKeyed}
use enml.Table.Laws.{
  IsKeyed-modify, IsKeyed-clear, IsKeyed-place, count_live-modify, count_live-clear, count_live-le,
  count_live-place, length-modify, length-place, Keeps, find-modify, find-clear, find-place,
  find_sound, IsKeyed-replicate, count_live-replicate, length-replicate, find-replicate, find-map,
  IsKeyed-map, count_live-map, length-map,
}
use enml.Rendezvous.{
  Rendezvous, ThreadState, Slot, slot_keyed, empty_slot, max_threads, exited, new_slot,
  is_send_blocked, is_reply_blocked, is_receive_blocked, is_admitted, init, create_in, start_thread,
  to_ready, exit_thread, release, leave, block_send, block_on,
}

abbrev pub is_live : ℕ → List Slot → Bool
is_live j xs = elim (find j xs) [ none ↦ false | some _ ↦ true ]

abbrev pub is_waiting : ThreadState → Bool
is_waiting state = is_send_blocked state || is_reply_blocked state

-- Whoever waits for a peer waits for another thread, which is there to answer; whoever waits for
-- anybody, or has not started, has no peer; and no slot in use says that its thread is gone.
pub record IsLinked (xs : List Slot) (a : Slot) : Type 0 where
  pub peer : is_waiting a.state ≡ true → (a.partner ≢ a.thread) × (is_live a.partner xs ≡ true)
  pub open_receive : is_receive_blocked a.state ≡ true → a.partner ≡ 0
  pub unstarted : is_admitted a.state ≡ true → a.partner ≡ 0
  pub present : a.state ≢ exited

pub record Inv (r : Rendezvous) : Type 0 where
  pub unique : IsKeyed r.slots
  pub counted : r.occupied ≡ count_live r.slots
  pub sized : length r.slots ≡ max_threads
  pub linked : (j : ℕ) (a : Slot) → find j r.slots ≡ some a → IsLinked r.slots a

pub init-Inv : Inv init
unfolding init
init-Inv = record {
  unique = IsKeyed-replicate max_threads empty_slot refl;
  counted = ground (arith, count_live-replicate max_threads empty_slot refl);
  sized = length-replicate max_threads empty_slot;
  linked = λ j a e. ground (arith, find-replicate j max_threads empty_slot refl);
}

pub is_live-modify :
    (k j : ℕ) (f : Slot → Slot) (xs : List Slot)
    → Keeps f
    → is_live j (modify k f xs) ≡ is_live j xs
is_live-modify k j f xs h = ground (arith, find-modify k j f xs h)

IsLinked-modify :
    (k : ℕ) (f : Slot → Slot) (xs : List Slot) (b : Slot)
    → Keeps f
    → IsLinked xs b
    → IsLinked (modify k f xs) b
IsLinked-modify k f xs b h l = record {
  peer = λ w. ((l.peer w).0, rw (is_live-modify k b.partner f xs h) (l.peer w).1);
  open_receive = l.open_receive;
  unstarted = l.unstarted;
  present = l.present;
}

-- A write to the slot of a thread, one that keeps it occupied and its thread.
pub modify-Inv :
    (k : ℕ) (f : Slot → Slot) (a : Slot) (r : Rendezvous)
    → Keeps f
    → find k r.slots ≡ some a
    → IsLinked r.slots (f a)
    → Inv r
    → Inv (record r { slots = modify k f r.slots })
modify-Inv k f a r keeps e l v = record {
  unique = IsKeyed-modify k f r.slots keeps v.unique;
  counted = ground (arith, v.counted, count_live-modify k f r.slots keeps);
  sized = ground (arith, v.sized, length-modify k f r.slots);
  linked = λ j b q. IsLinked-modify k f r.slots b keeps (linked j b q);
}
  where
    linked : (j : ℕ) (b : Slot) → find j (modify k f r.slots) ≡ some b → IsLinked r.slots b
    linked j b q = elim (Bool-cases (k == j)) [
      | inl t ↦
          let s : f a ≡ b = ground (arith, find-modify k j f r.slots keeps) in
          subst (IsLinked r.slots) s l
      | inr n ↦ v.linked j b (ground (arith, find-modify k j f r.slots keeps))
    ]

-- A new thread without a peer, in the first free slot.
place-Inv :
    (a : Slot) (ys : List Slot) (r : Rendezvous) (n : ℕ)
    → a.occupied ≡ true
    → a.thread ≢ 0
    → is_waiting a.state ≡ false
    → a.partner ≡ 0
    → a.state ≢ exited
    → find a.thread r.slots ≡ none
    → place a r.slots ≡ some ys
    → n ≡ suc r.occupied
    → Inv r
    → Inv (record { slots = ys; occupied = n })
place-Inv a ys r n live key waiting alone there new e size v = record {
  unique = IsKeyed-place a live r.slots ys key (unfold find in ground arith) e v.unique;
  counted = ground (arith, v.counted, count_live-place a live r.slots ys e);
  sized = ground (arith, v.sized, length-place a live r.slots ys e);
  linked = λ j b q. ground (
    arith,
    find-place a live j r.slots ys key new e,
    v.linked j b,
    find-place a live b.partner r.slots ys key new e,
  );
}

pub create_in-Inv :
    (state : ThreadState) (thread priority : ℕ) (r : Rendezvous)
    → is_waiting state ≡ false
    → state ≢ exited
    → Inv r
    → Inv (create_in state thread priority r).0
unfolding create_in
create_in-Inv state thread priority r w p v =
    elim (Option-cases (place (new_slot state thread priority) r.slots)) [
      | inl e ↦ ground arith
      | inr (ys, e) ↦ ground (
        arith,
        v.counted,
        v.sized,
        count_live-place (new_slot state thread priority) refl r.slots ys e,
        length-place (new_slot state thread priority) refl r.slots ys e,
        count_live-le ys,
        place-Inv (new_slot state thread priority) ys r (inc64 r.occupied) refl,
      )
    ]

module _ (thread : ℕ) (r : Rendezvous) (v : Inv r) where
  abbrev pub left : List Slot
  left = modify thread leave (map (release thread) r.slots)

  -- What a search finds once `thread` has left.
  pub find-left :
      (j : ℕ)
      → find j left ≡ (if thread == j then none else Option.map (release thread) (find j r.slots))
  find-left j = ground (
    arith,
    find-clear leave (λ a. refl) thread j (map (release thread) r.slots)
        (IsKeyed-map (release thread) r.slots (λ a. ground arith) v.unique),
    find-map j (release thread) r.slots (λ a. ground arith),
  )

  IsLinked-release :
      (j : ℕ) (a : Slot)
      → find j r.slots ≡ some a
      → (thread == j) ≡ false
      → IsLinked left (release thread a)
  IsLinked-release j a e n =
      ground (arith, v.linked j a, find_sound j r.slots a e, find-left a.partner)

  IsLinked-left : (j : ℕ) (b : Slot) → find j left ≡ some b → IsLinked left b
  IsLinked-left j b q = elim (Option-cases (find j r.slots)) [
    | inl e ↦ absurd (ground (arith, find-left j))
    | inr (a, e) ↦
        let s : release thread a ≡ b = ground (arith, find-left j) in
        subst (IsLinked left) s (IsLinked-release j a e (ground (arith, find-left j)))
  ]

  pub exit_thread-Inv : Inv (exit_thread thread r).0
  unfolding exit_thread find
  exit_thread-Inv = elim (Option-cases (find thread r.slots)) [
    | inl e ↦ rw (e, exit_thread) v
    | inr (a, e) ↦
        rw (e, exit_thread)
          (record {
            unique =
                IsKeyed-clear leave (λ a. refl) thread (map (release thread) r.slots)
                  (IsKeyed-map (release thread) r.slots (λ a. ground arith) v.unique);
            counted = ground (
              arith,
              v.counted,
              v.sized,
              count_live-le r.slots,
              count_live-map (release thread) r.slots (λ a. ground arith),
              count_live-clear leave (λ a. refl) thread (map (release thread) r.slots)
                  (release thread a),
              find-map thread (release thread) r.slots (λ a. ground arith),
            );
            sized = ground (
              arith,
              v.sized,
              length-modify thread leave (map (release thread) r.slots),
              length-map (release thread) r.slots,
            );
            linked = IsLinked-left;
          })
  ]

pub start_thread-Inv : (thread : ℕ) (r : Rendezvous) → Inv r → Inv (start_thread thread r).0
unfolding start_thread
start_thread-Inv thread r v = elim (Option-cases (find thread r.slots)) [
  | inl e ↦ ground arith
  | inr (a, e) ↦
      ground (arith, v.linked thread a e, modify-Inv thread to_ready a r (λ b. (refl, refl)) e)
]

pub block_send-Inv : (from to : ℕ) (r : Rendezvous) → Inv r → Inv (block_send from to r).0
unfolding block_send
block_send-Inv from to r v = elim (Option-cases (find from r.slots)) [
  | inl e ↦ ground arith
  | inr (a, e) ↦ ground (
    arith,
    v.linked from a e,
    find_sound from r.slots a e,
    modify-Inv from (block_on to) a r (λ b. (refl, refl)) e,
  )
]
