-- ===== src/Ring/Holds.antt =====
-- The state of a ring as the queue that it holds, and what one step does to it.
use Prim.Native.Nat.{◌∣◌}
use native.Mathlib.Nat.{mod-add-mod}
use polymarket_tickscope.Base.{
  ℕ, suc, ◌+◌, ◌%◌, ◌<◌, ◌≡◌, refl, ap, ◌≢◌, inl, inr, List, [], ◌∷◌, ◌++◌, arith, true, false,
  none, some, if_pos, if_neg, ℕ_discrete, length, length-append, update, update_self, word_mod,
  mod-wrap, mod_lap,
}
use polymarket_tickscope.Ring.{Slot, RingBuffer, try_produce, consume}
use polymarket_tickscope.Ring.Chain.{
  Published, Free, Published-update, Free-update, Published-append, Free-append,
}

-- What `static_assert`s and the word size give: the capacity divides 2^64, and it is not 1.
pub record IsCapacity (capacity : ℕ) : Type 0 where
  pub divides : capacity ∣ word_mod
  pub above_one : 1 < capacity
  pub below_word : capacity < word_mod

-- After `count` items were consumed, `ring` holds `q`, oldest first, and `room` free slots.
pub record Holds {A : Type 0} (capacity : ℕ) (ring : RingBuffer A) (count : ℕ) (q : List A)
    : Type 0 where
  pub room : ℕ
  pub full : length q + room ≡ capacity
  pub read : ring.read_index ≡ count % word_mod
  pub write : ring.write_index ≡ (count + length q) % word_mod
  pub published : Published capacity ring.slots count q
  pub free : Free capacity ring.slots (count + length q) room

module _ {A : Type 0} (capacity : ℕ) where
  -- A ring whose indices are the positions `count` and `next`.
  abbrev pub ring_at : (ℕ → Slot A) → ℕ → ℕ → RingBuffer A
  ring_at slots count next = record {
    slots = slots;
    write_index = next % word_mod;
    read_index = count % word_mod;
  }

  abbrev pub slot_of : ℕ → A → Slot A
  slot_of s x = record { sequence = s; item = x }

  pub ring_at-eq :
      {r : RingBuffer A} {count : ℕ} {q : List A}
      → Holds capacity r count q
      → r ≡ ring_at r.slots count (count + length q)
  ring_at-eq {r} h = λ i. record { slots = r.slots; write_index = h.write i; read_index = h.read i }

  -- What `try_produce` does at position `next`, by the sequence of its slot.
  pub try_produce-accept :
      (slots : ℕ → Slot A) (count next : ℕ) (x : A)
      → capacity ∣ word_mod
      → (slots (next % capacity)).sequence ≡ next % word_mod
      → try_produce capacity (ring_at slots count next) x ≡ (
        true,
        ring_at
            (update slots (next % capacity) (slot_of ((next + 1) % word_mod) x))
            count
            (next + 1),
      )
  unfolding try_produce
  try_produce-accept slots count next x d e =
      rw (mod-wrap capacity next d, mod-add-mod next word_mod 1) (if_pos (ℕ_discrete _ _) e _ _)

  pub try_produce-reject :
      (slots : ℕ → Slot A) (count next : ℕ) (x : A)
      → capacity ∣ word_mod
      → (slots (next % capacity)).sequence ≢ next % word_mod
      → try_produce capacity (ring_at slots count next) x ≡ (false, ring_at slots count next)
  unfolding try_produce
  try_produce-reject slots count next x d e =
      rw (mod-wrap capacity next d) (if_neg (ℕ_discrete _ _) e _ _)

  pub consume-accept :
      (slots : ℕ → Slot A) (count next : ℕ) (x : A)
      → capacity ∣ word_mod
      → slots (count % capacity) ≡ slot_of ((count + 1) % word_mod) x
      → consume capacity (ring_at slots count next)
        ≡ some (
          x,
          ring_at
              (update slots (count % capacity) (slot_of ((count + capacity) % word_mod) x))
              (count + 1)
              next,
        )
  unfolding consume
  consume-accept slots count next x d e =
      rw
        (
          mod-wrap capacity count d,
          e,
          mod-add-mod count word_mod 1,
          mod-add-mod count word_mod capacity,
        )
        (if_pos (ℕ_discrete _ _) refl _ _)

  pub consume-reject :
      (slots : ℕ → Slot A) (count next : ℕ)
      → capacity ∣ word_mod
      → (slots (count % capacity)).sequence ≢ (count + 1) % word_mod
      → consume capacity (ring_at slots count next) ≡ none
  unfolding consume
  consume-reject slots count next d e =
      rw (mod-wrap capacity count d, mod-add-mod count word_mod 1) (if_neg (ℕ_discrete _ _) e _ _)

  grown : (p : ℕ) (q : List A) (x : A) → p + length (q ++ x ∷ []) ≡ suc (p + length q)
  grown p q x = omega (arith, length-append q (x ∷ []))

  -- A successful `try_produce` publishes the item behind the others.
  pub accept-Holds :
      (slots : ℕ → Slot A) (count : ℕ) (q : List A) (x : A) (m : ℕ)
      → length q + suc m ≡ capacity
      → Published capacity slots count q
      → Free capacity slots (count + length q) (suc m)
      → let next : ℕ = count + length q in
        Holds capacity
          (ring_at
            (update slots (next % capacity) (slot_of ((next + 1) % word_mod) x))
            count
            (next + 1))
          count
          (q ++ x ∷ [])
  accept-Holds slots count q x m e h f = record {
    room = m;
    full = omega (arith, grown 0 q x);
    read = refl;
    write = omega (arith, grown count q x);
    published =
        Published-append capacity slots' count q x
          (Published-update capacity slots next count s q (inr (omega arith, omega arith)) h)
          (update_self slots (next % capacity) s);
    free =
        rw (grown count q x)
          (Free-update capacity slots next (suc next) s m (inl (omega arith, omega arith)) f.1);
  }
    where
      next : ℕ
      next = count + length q

      s : Slot A
      s = slot_of ((next + 1) % word_mod) x

      slots' : ℕ → Slot A
      slots' = update slots (next % capacity) s

  -- A successful `consume` frees the oldest slot for the next lap.
  pub release-Holds :
      (slots : ℕ → Slot A) (count : ℕ) (q : List A) (x : A) (m : ℕ)
      → suc (length q) + m ≡ capacity
      → Published capacity slots (suc count) q
      → Free capacity slots (suc count + length q) m
      → Holds capacity
          (ring_at
            (update slots (count % capacity) (slot_of ((count + capacity) % word_mod) x))
            (count + 1)
            (count + suc (length q)))
          (suc count)
          q
  release-Holds slots count q x m e h f = record {
    room = suc m;
    full = omega arith;
    read = omega arith;
    write = omega arith;
    published =
        Published-update capacity slots count (suc count) s q (inl (omega arith, omega arith)) h;
    free =
        Free-append capacity slots' (suc count + length q) m
          (Free-update capacity slots count (suc count + length q) s m
            (inl (omega arith, omega arith)) f)
          (rw (end, mod_lap capacity count)
            (ap (λ t. t.sequence) (update_self slots (count % capacity) s)));
  }
    where
      s : Slot A
      s = slot_of ((count + capacity) % word_mod) x

      slots' : ℕ → Slot A
      slots' = update slots (count % capacity) s

      end : suc count + length q + m ≡ count + capacity
      end = omega arith
