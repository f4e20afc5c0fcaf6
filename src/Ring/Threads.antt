-- ===== src/Ring/Threads.antt =====
-- include/polymarket/memory/RingBuffer.hpp: `produce`, called by any number of threads at once, with
-- the consumer beside them. Each atomic access is one step, in any interleaving; the plain store of
-- the item is one too. `claimed` and `taken` record the items in the order of the claims and of the
-- consumer; no step reads them. The weak memory order is not modelled.
pub mod Log
pub mod Claims
pub mod Order
pub mod Release
pub mod Fifo
pub mod Covered
pub mod Progress
use polymarket_tickscope.Base.{
  ℕ, ◌+◌, ◌%◌, List, [], ◌∷◌, ◌++◌, Option, none, some, ite, ℕ_discrete, update, word_mod,
}
use polymarket_tickscope.Ring.{Slot, RingBuffer, init, consume}

-- Where a thread is in `produce`: outside, spinning, past the spin, or with its item stored.
pub data Pc (A : Type 0) : Type 0 where
  idle : Pc A
  spinning : (pos : ℕ) (item : A) → Pc A
  entered : (pos : ℕ) (item : A) → Pc A
  stored : (pos : ℕ) (item : A) → Pc A

pub record System (A : Type 0) : Type 0 where
  pub ring : RingBuffer A
  pub pc : ℕ → Pc A
  pub claimed : List A
  pub taken : List A

pub data Action (A : Type 0) : Type 0 where
  begins : (thread : ℕ) (item : A) → Action A
  goes_on : (thread : ℕ) → Action A
  consumes : Action A

module _ {A : Type 0} (capacity : ℕ) where
  abbrev pub new_system : A → System A
  new_system blank = record { ring = init capacity blank; pc = λ _. idle; claimed = []; taken = [] }

  -- `fetch_add` on the write index, by a thread that is outside.
  unfoldable pub claim : ℕ → A → Pc A → System A → System A
  claim i item idle s = record s {
    ring = record s.ring { write_index = (s.ring.write_index + 1) % word_mod };
    pc = update s.pc i (spinning s.ring.write_index item);
    claimed = s.claimed ++ item ∷ [];
  }
  claim i item (spinning _ _) s = s
  claim i item (entered _ _) s = s
  claim i item (stored _ _) s = s

  unfoldable pub slot_at : ℕ → System A → Slot A
  slot_at pos s = s.ring.slots (pos % capacity)

  unfoldable pub put_slot : ℕ → Slot A → System A → System A
  put_slot pos slot s = record s {
    ring = record s.ring { slots = update s.ring.slots (pos % capacity) slot };
  }

  -- The next step inside `produce`: a look at the sequence, the store, the publication.
  unfoldable pub advance : ℕ → Pc A → System A → System A
  advance i idle s = s
  advance i (spinning pos item) s =
      ite (ℕ_discrete (slot_at pos s).sequence pos)
        (record s { pc = update s.pc i (entered pos item) }) s
  advance i (entered pos item) s =
      record (put_slot pos (record { sequence = (slot_at pos s).sequence; item = item }) s) {
        pc = update s.pc i (stored pos item);
      }
  advance i (stored pos item) s =
      record (put_slot pos (record { sequence = (pos + 1) % word_mod; item = (slot_at pos s).item })
        s) { pc = update s.pc i idle }

  abbrev pub with_taken : System A → Option (A × RingBuffer A) → System A
  with_taken s none = s
  with_taken s (some (item, ring)) = record s { ring = ring; taken = s.taken ++ item ∷ [] }

  unfoldable pub take_one : System A → System A
  take_one s = with_taken s (consume capacity s.ring)

  unfoldable pub act : Action A → System A → System A
  act (begins i item) s = claim i item (s.pc i) s
  act (goes_on i) s = advance i (s.pc i) s
  act consumes s = take_one s

  unfoldable pub run : List (Action A) → System A → System A
  run [] s = s
  run (a ∷ rest) s = run rest (act a s)
