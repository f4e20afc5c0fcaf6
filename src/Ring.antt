-- ===== src/Ring.antt =====
-- include/polymarket/memory/RingBuffer.hpp: the slots with their sequence counters, and the
-- operations of one producer (`try_produce`) and of the consumer, each as one atomic step.
-- `produce`, which any number of threads may call at once, is Ring/Threads.antt.
-- `pos & MASK` is `pos % capacity`, as the capacity is a power of two; `size_t` wraps at 2^64.
-- An index of the slot array is always a remainder by the capacity, so a family models the array.
pub mod Chain
pub mod Queue
pub mod Holds
pub mod Refine
pub mod Threads
use polymarket_tickscope.Base.{
  ℕ, ◌+◌, ◌-◌, ◌%◌, Bool, true, false, Option, none, some, ite, ℕ_discrete, update, word_mod,
}

pub record Slot (A : Type 0) : Type 0 where
  pub sequence : ℕ
  pub item : A

pub record RingBuffer (A : Type 0) : Type 0 where
  pub slots : ℕ → Slot A
  pub write_index : ℕ
  pub read_index : ℕ

module _ {A : Type 0} (capacity : ℕ) where
  -- The constructor; `blank` is what an unwritten slot holds.
  unfoldable pub init : A → RingBuffer A
  init blank = record {
    slots = λ i. record { sequence = i; item = blank };
    write_index = 0;
    read_index = 0;
  }

  unfoldable pub try_produce : RingBuffer A → A → Bool × RingBuffer A
  try_produce r item =
      let pos : ℕ = r.write_index in
      ite (ℕ_discrete (r.slots (pos % capacity)).sequence pos)
        (
          true,
          record r {
            write_index = (pos + 1) % word_mod;
            slots =
                update r.slots (pos % capacity)
                  (record { sequence = (pos + 1) % word_mod; item = item });
          },
        )
        (false, r)

  -- The item that goes through `out`, with the new ring; `none` where the code returns false.
  unfoldable pub consume : RingBuffer A → Option (A × RingBuffer A)
  consume r =
      let pos : ℕ = r.read_index in
      let slot : Slot A = r.slots (pos % capacity) in
      ite (ℕ_discrete slot.sequence ((pos + 1) % word_mod))
        (some (
          slot.item,
          record r {
            slots =
                update r.slots (pos % capacity)
                  (record slot { sequence = (pos + capacity) % word_mod });
            read_index = (pos + 1) % word_mod;
          },
        ))
        none

  pub size_approx : RingBuffer A → ℕ
  size_approx r = (word_mod + r.write_index - r.read_index) % word_mod
