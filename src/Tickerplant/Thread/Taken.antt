-- ===== src/Tickerplant/Thread/Taken.antt =====
-- How many ticks the queue takes while the consumer's thread is up.
use polymarket_tickscope.Base.{
  ℕ, ◌+◌, ◌≤◌, ◌≡◌, refl, ap, inl, inr, List, [], ◌∷◌, ◌++◌, Bool, true, false, Option-cases,
  length, length-append, arith, if◌then◌else◌,
}
use polymarket_tickscope.Core.{Tick}
use polymarket_tickscope.Tickerplant.{Setup, TickQueue}
use polymarket_tickscope.Tickerplant.Thread.{
  Pc, constructed, looping, draining, finished, Step, arrived, asked, turned, Thread, loop,
  drain_one, turn, turn_at, step, run,
}

module _ {F : Type 0} (setup : Setup) (queue : TickQueue F) where
  open queue use {produce}

  loop_if-taken :
      (b : Bool) (now : ℕ) (opens : Bool) (t : Thread setup queue)
      → (if b then loop setup queue now opens t else record t { pc = draining }).taken ≡ t.taken
  loop_if-taken true now opens t = refl
  loop_if-taken false now opens t = refl

  turn_at-taken :
      (c : Pc) (now : ℕ) (opens : Bool) (t : Thread setup queue)
      → (turn_at setup queue c now opens t).taken ≡ t.taken
  unfolding turn_at drain_one
  turn_at-taken constructed now opens t = refl
  turn_at-taken looping now opens t = loop_if-taken t.running now opens t
  turn_at-taken draining now opens t = elim (Option-cases (queue.consume t.ring)) [
    | inl e ↦ rw (e, drain_one) refl
    | inr ((tick, s), e) ↦ rw (e, drain_one) refl
  ]
  turn_at-taken finished now opens t = refl

  length-if-le :
      (b : Bool) (xs : List (Tick F)) (x : Tick F)
      → length (if b then xs ++ x ∷ [] else xs) ≤ length xs + 1
  length-if-le true xs x = omega (arith, length-append xs (x ∷ []))
  length-if-le false xs x = omega arith

  -- No more ticks are taken than there are steps.
  pub length-taken-le :
      (es : List (Step F)) (t : Thread setup queue)
      → length (run setup queue es t).taken ≤ length t.taken + length es
  unfolding run step
  length-taken-le [] t = omega arith
  length-taken-le (arrived tick ∷ es) t = omega (
    arith,
    length-taken-le es (step setup queue (arrived tick) t),
    length-if-le (produce tick t.ring).0 t.taken tick,
  )
  length-taken-le (asked ∷ es) t = omega (arith, length-taken-le es (step setup queue asked t))
  length-taken-le (turned now opens ∷ es) t = omega (
    arith,
    length-taken-le es (turn setup queue now opens t),
    ap length (turn_at-taken t.pc now opens t),
  )
