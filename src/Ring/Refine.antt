-- ===== src/Ring/Refine.antt =====
-- One producer and one consumer: the ring against the bounded queue, over any number of laps and
-- over the wrap of the 64-bit indices.
use native.Mathlib.Nat.{mod-eq_of_lt, add-zero}
use polymarket_tickscope.Base.{
  ℕ, zero, suc, ◌+◌, ◌%◌, ◌≤◌, ◌≡◌, refl, sym, ap, subst, ◌∙◌, List, [], ◌∷◌, ◌++◌, arith, true,
  false, Option, none, some, ℕ_discrete, length, word_mod, mod-ne_of_near, mod_lap, ◌≢◌, ◌-◌,
}
use polymarket_tickscope.Ring.{RingBuffer, init, try_produce, consume, size_approx}
use polymarket_tickscope.Ring.Chain.{Free, add-suc_left}
use polymarket_tickscope.Ring.Queue.{
  push, push_full, push_room, Op, produces, consumes, Reply, produced, consumed,
}
use polymarket_tickscope.Ring.Queue
use polymarket_tickscope.Ring.Holds.{
  IsCapacity, Holds, ring_at-eq, try_produce-accept, try_produce-reject, consume-accept,
  consume-reject, accept-Holds, release-Holds,
}

-- A client's calls in order, with what each returns.
pub run : {A : Type 0} → ℕ → RingBuffer A → List (Op A) → List (Reply A)
run capacity r [] = []
run capacity r (produces x ∷ ops) =
    let (taken, r') = try_produce capacity r x in produced taken ∷ run capacity r' ops
run capacity r (consumes ∷ ops) = elim (consume capacity r) [
  | none ↦ consumed none ∷ run capacity r ops
  | some (x, r') ↦ consumed (some x) ∷ run capacity r' ops
]

module _ {A : Type 0} (capacity : ℕ) (c : IsCapacity capacity) where
  open c use {divides, above_one, below_word}

  init-Free :
      (blank : A) (p n : ℕ) → p + n ≤ capacity → Free capacity (init capacity blank).slots p n
  unfolding init
  init-Free blank p zero h = tt
  init-Free blank p (suc n) h = (
    mod-eq_of_lt {n = p} {m = capacity} (omega arith)
        ∙ sym (mod-eq_of_lt {n = p} {m = word_mod} (omega arith)),
    init-Free blank (suc p) n (omega arith),
  )

  -- A new ring is empty, and every slot waits for its first producer.
  pub init-Holds : (blank : A) → Holds capacity (init capacity blank) 0 []
  unfolding init
  init-Holds blank = record {
    room = capacity;
    full = omega arith;
    read = refl;
    write = refl;
    published = tt;
    free = init-Free blank 0 capacity (omega arith);
  }

  produce_room :
      (r : RingBuffer A) (count : ℕ) (q : List A) (x : A) (m : ℕ) (h : Holds capacity r count q)
      → h.room ≡ suc m
      → ((try_produce capacity r x).0 ≡ true)
        × Holds capacity (try_produce capacity r x).1 count (q ++ x ∷ [])
  produce_room r count q x m h e =
      let free : Free capacity r.slots (count + length q) (suc m) =
        subst (Free capacity r.slots (count + length q)) e h.free in
      let step =
        ap (λ k. try_produce capacity k x) (ring_at-eq capacity h)
        ∙ try_produce-accept capacity r.slots count (count + length q) x divides free.0 in
      (
        ap (λ t. t.0) step,
        subst (λ t. Holds capacity t count (q ++ x ∷ [])) (sym (ap (λ t. t.1) step))
            (accept-Holds capacity r.slots count q x m (omega arith) h.published free),
      )

  -- The oldest item of a full ring still stands in the slot that the next producer wants.
  produce_full :
      (r : RingBuffer A) (count : ℕ) (q : List A) (x : A)
      → Holds capacity r count q
      → length q ≡ capacity
      → try_produce capacity r x ≡ (false, r)
  produce_full r count [] x h e = absurd (omega arith)
  produce_full r count (y ∷ q) x h e =
      ap (λ k. try_produce capacity k x) (ring_at-eq capacity h)
      ∙ try_produce-reject capacity r.slots count (count + suc (length q)) x divides busy
      ∙ ap (λ k. (false, k)) (sym (ring_at-eq capacity h))
    where
      oldest : (r.slots ((count + suc (length q)) % capacity)).sequence ≡ (count + 1) % word_mod
      oldest = rw (e, mod_lap capacity count) (ap (λ s. s.sequence) h.published.0)

      busy :
          (r.slots ((count + suc (length q)) % capacity)).sequence
          ≢ (count + suc (length q)) % word_mod
      busy b =
          mod-ne_of_near word_mod (count + 1) (count + suc (length q)) (omega arith) (omega arith)
            (sym oldest ∙ b)

  -- On a ring that holds a queue, try_produce answers whether there is room, and leaves a
  -- ring that holds the queue with the item at its end, or the same queue when full.
  pub try_produce_refines :
      {r : RingBuffer A} {count : ℕ} {q : List A} (x : A)
      → Holds capacity r count q
      → ((try_produce capacity r x).0 ≡ (push capacity q x).0)
        × Holds capacity (try_produce capacity r x).1 count (push capacity q x).1
  try_produce_refines {r} {count} {q} x h = elim (ℕ_discrete (length q) capacity) [
    | yes full ↦ rw (push_full capacity q x full, produce_full r count q x h full) (refl, h)
    | no room ↦
        rw (push_room capacity q x room) (produce_room r count q x (h.room - 1) h (omega arith))
  ]

  consume_none :
      (r : RingBuffer A) (count : ℕ) → Holds capacity r count [] → consume capacity r ≡ none
  consume_none r count h =
      ap (consume capacity) (ring_at-eq capacity h)
      ∙ consume-reject capacity r.slots count (count + 0) divides waiting
    where
      free : Free capacity r.slots (count + 0) (suc (h.room - 1))
      free =
          subst (Free capacity r.slots (count + 0)) {x = h.room} {y = suc (h.room - 1)}
            (omega arith) h.free

      waiting : (r.slots (count % capacity)).sequence ≢ (count + 1) % word_mod
      waiting e =
          mod-ne_of_near word_mod (count + 0) (count + 1) (omega arith) (omega arith)
            (sym free.0 ∙ rw (add-zero count) e)

  consume_some :
      (r : RingBuffer A) (count : ℕ) (x : A) (q : List A)
      → Holds capacity r count (x ∷ q)
      → (r' : RingBuffer A) × (consume capacity r ≡ some (x, r')) × Holds capacity r' (suc count) q
  consume_some r count x q h = (
    _,
    ap (consume capacity) (ring_at-eq capacity h)
        ∙ consume-accept capacity r.slots count (count + suc (length q)) x divides h.published.0,
    release-Holds capacity r.slots count q x h.room h.full h.published.1
        (subst (λ k. Free capacity r.slots k h.room) (add-suc_left count (length q)) h.free),
  )

  -- What `consume` does on a queue: nothing if it is empty, and otherwise it splits off the oldest.
  abbrev pub Consumes : ℕ → List A → Option (A × RingBuffer A) → Type 0
  Consumes count [] out = out ≡ none
  Consumes count (x ∷ q) out =
      (r' : RingBuffer A) × (out ≡ some (x, r')) × Holds capacity r' (suc count) q

  -- On a ring that holds a queue, consume returns nothing if the queue is empty, and
  -- otherwise its oldest item with a ring that holds the rest.
  pub consume_refines :
      {r : RingBuffer A} {count : ℕ} (q : List A)
      → Holds capacity r count q
      → Consumes count q (consume capacity r)
  consume_refines {r} {count} [] h = consume_none r count h
  consume_refines {r} {count} (x ∷ q) h = consume_some r count x q h

  -- On any ring that holds a queue, every sequence of try_produce and consume calls returns
  -- what the bounded queue returns, on any number of laps and past the wrap of the 64-bit
  -- indices; the capacity divides 2^64, is above 1 and below 2^64.
  pub run_refines :
      (ops : List (Op A)) {r : RingBuffer A} {count : ℕ} (q : List A)
      → Holds capacity r count q
      → run capacity r ops ≡ Queue.run capacity q ops
  unfolding run Queue.run
  run_refines [] q h = refl
  run_refines (produces x ∷ ops) {r} q h =
      let step = try_produce_refines x h in
      rw (step.0) (ap (λ k. produced (push capacity q x).0 ∷ k) (run_refines ops _ step.1))
  run_refines (consumes ∷ ops) {r} {count} [] h =
      rw (consume_none r count h, run) (ap (λ k. consumed none ∷ k) (run_refines ops [] h))
  run_refines (consumes ∷ ops) {r} {count} (x ∷ q) h =
      let (r', e, h') = consume_some r count x q h in
      rw (e, run) (ap (λ k. consumed (some x) ∷ k) (run_refines ops q h'))

  -- On a ring that holds a queue, size_approx is the length of the queue, past the wrap of
  -- the indices too.
  pub size_approx_lem :
      {r : RingBuffer A} {count : ℕ} {q : List A}
      → Holds capacity r count q
      → size_approx capacity r ≡ length q
  unfolding size_approx
  size_approx_lem h = omega arith
