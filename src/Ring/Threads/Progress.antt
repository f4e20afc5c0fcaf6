-- ===== src/Ring/Threads/Progress.antt =====
-- Who can go on while an item is on its way.
use polymarket_tickscope.Base.{
  some_inj, ℕ, suc, ◌+◌, ◌%◌, ◌<◌, ◌≡◌, ◌≢◌, refl, sym, ap, subst, ◌∙◌, ◌⊎◌, inl, inr, List, take,
  length, some, if_pos, ℕ_discrete, update_self, word_mod, arith,
}
use polymarket_tickscope.Ring.Threads.{
  Pc, idle, spinning, entered, stored, System, Action, goes_on, consumes, new_system, slot_at,
  put_slot, advance, act, run,
}
use polymarket_tickscope.Ring.Threads.Claims.{position, Claims, Owns, IsOrderly}
use polymarket_tickscope.Ring.Threads.Order.{init-IsOrderly}
use polymarket_tickscope.Ring.Threads.Fifo.{run-IsOrderly}
use polymarket_tickscope.Ring.Threads.Release.{Ready, take_one-Ready, release-IsOrderly}
use polymarket_tickscope.Ring.Threads.Covered.{IsCovered, run-IsCovered}

module _ {A : Type 0} (capacity : ℕ) where
  -- The thread with the oldest position is not held up.
  advance-moves :
      (i : ℕ) (c : Pc A) (s : System A)
      → s.pc i ≡ c
      → 0 < capacity
      → IsOrderly capacity s
      → position c ≡ some s.ring.read_index
      → (advance capacity i c s).pc i ≢ c
  unfolding advance slot_at put_slot position
  advance-moves i idle s e pos h at = absurd (cc at)
  advance-moves i (spinning p x) s e pos h at =
      let mine : Claims capacity s.ring.slots s.ring.read_index s.claimed p x =
        subst (Owns capacity s.ring.slots s.ring.read_index s.claimed) e (h.owned i) in
      let free : (s.ring.slots (p % capacity)).sequence ≡ p =
        mine.unpublished (omega (arith, pos, some_inj at)) in
      let step : (advance capacity i (spinning p x) s).pc i ≡ entered p x =
        ap (λ (t : System A). t.pc i) (if_pos (ℕ_discrete _ p) free _ s)
        ∙ update_self s.pc i (entered p x) in
      λ same. cc (sym step ∙ same)
  advance-moves i (entered p x) s e pos h at =
      λ same. cc (sym (update_self s.pc i (stored p x)) ∙ same)
  advance-moves i (stored p x) s e pos h at = λ same. cc (sym (update_self s.pc i idle) ∙ same)

  abbrev pub reached : List (Action A) → A → System A
  reached actions blank = run capacity actions (new_system capacity blank)

  -- The thread with the oldest position moves on, or the consumer takes its item.
  abbrev pub GoesOn : System A → Type 0
  GoesOn s =
      ((i : ℕ) × (position (s.pc i) ≡ some s.ring.read_index)
        × ((act capacity (goes_on i) s).pc i ≢ s.pc i))
      ⊎ ((act capacity consumes s).taken ≡ take (suc s.ring.read_index) s.claimed)

  orderly-GoesOn :
      (s : System A)
      → 1 < capacity
      → length s.claimed + capacity < word_mod
      → IsOrderly capacity s
      → IsCovered capacity s
      → s.ring.read_index < length s.claimed
      → GoesOn s
  unfolding act
  orderly-GoesOn s big b h v waits = elim (v s.ring.read_index (omega arith) waits) [
    | inl (i, at) ↦ inl (i, at, advance-moves i (s.pc i) s refl (omega arith) h at)
    | inr (lt, done) ↦
        let ready : Ready capacity s = done ∙ omega arith in
        inr (
          ap (λ (t : System A). t.taken)
            (take_one-Ready capacity s (omega (arith, h.read, b)) big ready)
          ∙ (release-IsOrderly capacity s ready (omega arith) h).order)
  ]

  -- Under the same conditions, while a claimed item has not been read, the thread with the
  -- oldest claimed position is inside produce and its next step goes on, or the step of the
  -- consumer takes the oldest item.
  pub run-GoesOn :
      (actions : List (Action A)) (blank : A)
      → 1 < capacity
      → length (reached actions blank).claimed + capacity < word_mod
      → (reached actions blank).ring.read_index < length (reached actions blank).claimed
      → GoesOn (reached actions blank)
  run-GoesOn actions blank big b waits =
      let start = init-IsOrderly capacity blank (omega arith) in
      orderly-GoesOn (reached actions blank) big b
        (run-IsOrderly capacity actions (new_system capacity blank) big b start)
        (run-IsCovered capacity actions (new_system capacity blank) big b start
          (λ p _ none_yet. absurd (omega (arith, none_yet))))
        waits
