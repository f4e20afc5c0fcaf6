-- ===== src/Tests/Threads.antt =====
-- Two threads in `produce`, and the consumer, on a ring of four slots. Thread 1 claims second and
-- publishes first, so the consumer waits for thread 0.
use polymarket_tickscope.Base.{
  ℕ, ◌≡◌, ◌<◌, ◌+◌, ◌++◌, refl, List, [], ◌∷◌, length, word_mod, arith, ℕ_discrete,
}
use polymarket_tickscope.Ring.Threads.{
  Action, begins, goes_on, consumes, System, new_system, claim, slot_at, put_slot, advance,
  take_one, act, run,
}
use polymarket_tickscope.Ring.{init, consume}
use polymarket_tickscope.Ring.Threads.Fifo.{run-fifo}
use polymarket_tickscope.Ring.Threads.Progress.{reached, GoesOn, run-GoesOn}

abbrev actions : List (Action ℕ)
actions = begins 0 7 ∷ begins 1 8 ∷ goes_on 1 ∷ goes_on 1 ∷ goes_on 1 ∷ consumes ∷ goes_on 0 ∷ []

abbrev after : System ℕ
after = run 4 actions (new_system 4 0)

is_big : 1 < 4
is_big = omega arith

claimed_two : length after.claimed ≡ 2
unfolding run act claim advance slot_at put_slot take_one consume init ℕ_discrete
claimed_two = refl

none_read : after.ring.read_index ≡ 0
unfolding run act claim advance slot_at put_slot take_one consume init ℕ_discrete
none_read = refl

fits : length after.claimed + 4 < word_mod
fits = omega (arith, claimed_two)

waits : after.ring.read_index < length after.claimed
waits = omega (arith, claimed_two, none_read)

run-fifo_example : (waiting : List ℕ) × (after.claimed ≡ after.taken ++ waiting)
run-fifo_example = run-fifo 4 actions 0 is_big fits

run-GoesOn_example : GoesOn 4 (reached 4 actions 0)
run-GoesOn_example = run-GoesOn 4 actions 0 is_big fits waits
