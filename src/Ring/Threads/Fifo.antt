-- ===== src/Ring/Threads/Fifo.antt =====
-- The order in which items leave the ring that threads write to.
use polymarket_tickscope.Base.{
  ℕ, zero, suc, ◌+◌, ◌%◌, ◌<◌, ◌≤◌, ◌≡◌, refl, sym, ap, subst, ◌∙◌, inl, inr, List, [], ◌∷◌, ◌++◌,
  take, length, length-append, Option, none, some, if_pos, if_neg, ℕ_discrete, word_mod, arith,
}
use polymarket_tickscope.Ring.{RingBuffer, consume}
use polymarket_tickscope.Ring.Threads.{
  Pc, idle, spinning, entered, stored, System, Action, begins, goes_on, consumes, new_system, claim,
  slot_at, put_slot, advance, with_taken, take_one, act, run,
}
use polymarket_tickscope.Ring.Threads.Claims.{IsOrderly}
use polymarket_tickscope.Ring.Threads.Order.{
  init-IsOrderly, claim-IsOrderly, enter-IsOrderly, store-IsOrderly, publish-IsOrderly,
}
use polymarket_tickscope.Ring.Threads.Release.{take_one_cases, release-IsOrderly}

module _ {A : Type 0} (capacity : ℕ) where
  advance-IsOrderly :
      (i : ℕ) (c : Pc A) (s : System A)
      → s.pc i ≡ c
      → 1 < capacity
      → length s.claimed + 1 < word_mod
      → IsOrderly capacity s
      → IsOrderly capacity (advance capacity i c s)
  unfolding advance slot_at
  advance-IsOrderly i idle s e big b h = h
  advance-IsOrderly i (spinning p x) s e big b h =
      elim (ℕ_discrete (s.ring.slots (p % capacity)).sequence p) [
        | yes free ↦
            subst (IsOrderly capacity) (sym (if_pos (ℕ_discrete _ _) free _ _))
              (enter-IsOrderly capacity i p x s e free h)
        | no busy ↦ subst (IsOrderly capacity) (sym (if_neg (ℕ_discrete _ _) busy _ _)) h
      ]
  advance-IsOrderly i (entered p x) s e big b h = store-IsOrderly capacity i p x s e h
  advance-IsOrderly i (stored p x) s e big b h = publish-IsOrderly capacity i p x s e big b h

  pub act-IsOrderly :
      (a : Action A) (s : System A)
      → 1 < capacity
      → length s.claimed + capacity < word_mod
      → IsOrderly capacity s
      → IsOrderly capacity (act capacity a s)
  unfolding act
  act-IsOrderly (begins i x) s big b h =
      claim-IsOrderly capacity i x (s.pc i) s refl (omega arith) h
  act-IsOrderly (goes_on i) s big b h = advance-IsOrderly i (s.pc i) s refl big (omega arith) h
  act-IsOrderly consumes s big b h =
      elim (take_one_cases capacity s (omega (arith, h.read, b)) big) [
        | inl e ↦ subst (IsOrderly capacity) (sym e) h
        | inr (ready, e) ↦
            subst (IsOrderly capacity) (sym e) (release-IsOrderly capacity s ready (omega arith) h)
      ]

  claim-length :
      (i : ℕ) (x : A) (c : Pc A) (s : System A)
      → length s.claimed ≤ length (claim capacity i x c s).claimed
  unfolding claim
  claim-length i x idle s = omega (arith, length-append s.claimed (x ∷ []))
  claim-length i x (spinning _ _) s = omega arith
  claim-length i x (entered _ _) s = omega arith
  claim-length i x (stored _ _) s = omega arith

  advance-claimed : (i : ℕ) (c : Pc A) (s : System A) → (advance capacity i c s).claimed ≡ s.claimed
  unfolding advance put_slot
  advance-claimed i idle s = refl
  advance-claimed i (spinning p x) s = elim (ℕ_discrete (slot_at capacity p s).sequence p) [
    | yes e ↦ ap (λ (t : System A). t.claimed) (if_pos (ℕ_discrete _ _) e _ _)
    | no ne ↦ ap (λ (t : System A). t.claimed) (if_neg (ℕ_discrete _ _) ne _ _)
  ]
  advance-claimed i (entered p x) s = refl
  advance-claimed i (stored p x) s = refl

  with_taken-claimed :
      (s : System A) (o : Option (A × RingBuffer A)) → (with_taken capacity s o).claimed ≡ s.claimed
  with_taken-claimed s none = refl
  with_taken-claimed s (some (item, ring)) = refl

  pub act-length :
      (a : Action A) (s : System A) → length s.claimed ≤ length (act capacity a s).claimed
  unfolding act take_one
  act-length (begins i x) s = claim-length i x (s.pc i) s
  act-length (goes_on i) s = rw (advance-claimed i (s.pc i) s) (omega arith)
  act-length consumes s = rw (with_taken-claimed s (consume capacity s.ring)) (omega arith)

  pub run-length :
      (actions : List (Action A)) (s : System A)
      → length s.claimed ≤ length (run capacity actions s).claimed
  unfolding run
  run-length [] s = omega arith
  run-length (a ∷ rest) s = omega (arith, act-length a s, run-length rest (act capacity a s))

  pub run-IsOrderly :
      (actions : List (Action A)) (s : System A)
      → 1 < capacity
      → length (run capacity actions s).claimed + capacity < word_mod
      → IsOrderly capacity s
      → IsOrderly capacity (run capacity actions s)
  unfolding run
  run-IsOrderly [] s big b h = h
  run-IsOrderly (a ∷ rest) s big b h =
      run-IsOrderly rest (act capacity a s) big b
        (act-IsOrderly a s big (omega (arith, run-length (a ∷ rest) s, b)) h)

  take_prefix : (n : ℕ) (xs : List A) → (rest : List A) × (xs ≡ take n xs ++ rest)
  take_prefix zero xs = (xs, refl)
  take_prefix (suc n) [] = ([], refl)
  take_prefix (suc n) (x ∷ xs) = let (rest, e) = take_prefix n xs in (rest, ap (◌∷◌ x) e)

  -- On a ring of more than one slot, whatever steps the threads in produce and the consumer
  -- take, in any order, with fewer than 2^64 claims and slots together, the items claimed
  -- are, in the order of the claims, those that the consumer took, each once, and then those
  -- that wait.
  pub run-fifo :
      (actions : List (Action A)) (blank : A)
      → 1 < capacity
      → length (run capacity actions (new_system capacity blank)).claimed + capacity < word_mod
      → (waiting : List A) × ((run capacity actions (new_system capacity blank)).claimed
          ≡ (run capacity actions (new_system capacity blank)).taken ++ waiting)
  run-fifo actions blank big b =
      let s = run capacity actions (new_system capacity blank) in
      let h =
        run-IsOrderly actions (new_system capacity blank) big b
          (init-IsOrderly capacity blank (omega arith)) in
      let (waiting, e) = take_prefix s.ring.read_index s.claimed in
      (waiting, e ∙ ap (λ xs. xs ++ waiting) (sym h.order))
