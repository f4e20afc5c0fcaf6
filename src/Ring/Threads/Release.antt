-- ===== src/Ring/Threads/Release.antt =====
-- The consumer's step on the ring that threads write to.
use native.Mathlib.Nat.{mod-eq_of_lt}
use polymarket_tickscope.Base.{
  ℕ, suc, ◌+◌, ◌%◌, ◌<◌, ◌≤◌, ◌≡◌, ◌≢◌, sym, ap, ap₂, subst, ◌∙◌, ◌⊎◌, inl, inr, [], ◌∷◌, ◌++◌,
  some, if_pos, if_neg, ℕ_discrete, dec_lt, update, update_self, update_ne, word_mod, mod_lap,
  arith,
}
use polymarket_tickscope.Ring.{Slot, consume}
use polymarket_tickscope.Ring.Threads.{System, with_taken, take_one}
use polymarket_tickscope.Ring.Threads.Log.{item_at, item_at-bound, take_next}
use polymarket_tickscope.Ring.Threads.Claims.{Filled, IsOrderly, Owns-kept, other_slot}

next_index : (capacity r : ℕ) → r + capacity < word_mod → 1 < capacity → (r + 1) % word_mod ≡ suc r
next_index capacity r b big = mod-eq_of_lt (omega arith) ∙ omega arith

module _ {A : Type 0} (capacity : ℕ) where
  -- The slot that the consumer leaves for the next lap, and the system after it.
  abbrev pub left_slot : System A → Slot A
  left_slot s = record {
    sequence = s.ring.read_index + capacity;
    item = (s.ring.slots (s.ring.read_index % capacity)).item;
  }

  abbrev pub left_slots : System A → ℕ → Slot A
  left_slots s = update s.ring.slots (s.ring.read_index % capacity) (left_slot s)

  abbrev pub released : System A → System A
  released s = record s {
    ring = record {
      slots = left_slots s;
      write_index = s.ring.write_index;
      read_index = suc s.ring.read_index;
    };
    taken = s.taken ++ (s.ring.slots (s.ring.read_index % capacity)).item ∷ [];
  }

  abbrev pub Ready : System A → Type 0
  Ready s = (s.ring.slots (s.ring.read_index % capacity)).sequence ≡ suc s.ring.read_index

  pub take_one-Ready :
      (s : System A)
      → s.ring.read_index + capacity < word_mod
      → 1 < capacity
      → Ready s
      → take_one capacity s ≡ released s
  unfolding take_one consume
  take_one-Ready s b big ready =
      let r = s.ring.read_index in
      let item = (s.ring.slots (r % capacity)).item in
      ap (with_taken capacity s) (
        if_pos (ℕ_discrete _ _) (ready ∙ sym (next_index capacity r b big)) _ _
        ∙ ap₂
            (λ q n. some (
              item,
              record {
                slots = update s.ring.slots (r % capacity) (record { sequence = q; item = item });
                write_index = s.ring.write_index;
                read_index = n;
              },
            ))
            (mod-eq_of_lt b) (next_index capacity r b big))

  pub take_one_cases :
      (s : System A)
      → s.ring.read_index + capacity < word_mod
      → 1 < capacity
      → (take_one capacity s ≡ s) ⊎ (Ready s × (take_one capacity s ≡ released s))
  unfolding take_one consume
  take_one_cases s b big =
      let r = s.ring.read_index in
      elim (ℕ_discrete (s.ring.slots (r % capacity)).sequence ((r + 1) % word_mod)) [
        | yes e ↦ inr (
          e ∙ next_index capacity r b big,
          take_one-Ready s b big (e ∙ next_index capacity r b big),
        )
        | no ne ↦ inl (ap (with_taken capacity s) (if_neg (ℕ_discrete _ _) ne _ _))
      ]

  -- The consumer's step.
  pub release-IsOrderly :
      (s : System A)
      → Ready s
      → 0 < capacity
      → IsOrderly capacity s
      → IsOrderly capacity (released s)
  release-IsOrderly s ready pos h =
      let r = s.ring.read_index in
      let slots = s.ring.slots in
      let t = left_slot s in
      let high : r < r + capacity = omega arith in
      let logged : item_at r s.claimed ≡ some (slots (r % capacity)).item =
        elim (h.near r (omega arith) high) [
          | inl f ↦ absurd (omega (arith, f, ready))
          | inr f ↦ f.1
        ] in
      let same : (q : ℕ)
          → r ≤ q
          → q < r + capacity
          → r ≢ q
          → left_slots s (q % capacity) ≡ slots (q % capacity) =
        other_slot capacity slots r r t (omega arith) high in
      let lap : (left_slots s ((r + capacity) % capacity)).sequence ≡ r + capacity =
        rw (mod_lap capacity r)
          (ap (λ (u : Slot A). u.sequence) (update_self slots (r % capacity) t)) in
      record {
        write = h.write;
        read = omega (arith, item_at-bound r s.claimed logged);
        order =
            ap (λ xs. xs ++ (slots (r % capacity)).item ∷ []) h.order
            ∙ sym (take_next r s.claimed logged);
        near = λ q a b. elim (dec_lt q (r + capacity)) [
          | yes lt ↦ rw (same q (omega arith) lt (omega (arith, a))) (h.near q (omega arith) lt)
          | no ge ↦
              subst (Filled capacity (left_slots s) s.claimed) (omega (arith, a, b, ge)) (inl lap)
        ];
        far = λ q a. elim (ℕ_discrete (r % capacity) (q % capacity)) [
          | yes e ↦
              subst (λ k. (left_slots s k).sequence < q) e
                (rw (update_self slots (r % capacity) t) (omega arith))
          | no ne ↦ rw (update_ne slots (r % capacity) (q % capacity) t ne) (h.far q (omega arith))
        ];
        owned = λ j.
            Owns-kept capacity slots (left_slots s) r (suc r) s.claimed s.claimed (s.pc j)
              (λ q _ x k.
                let ne : r ≢ q = λ e. absurd (
                  omega (
                    arith,
                    e,
                    ready,
                    k.unpublished (omega (arith, e)),
                    ap (λ n. (slots (n % capacity)).sequence) e,
                  )) in
                (
                  record {
                    unread = omega (arith, k.unread, ne);
                    logged = k.logged;
                    unpublished = λ l. elim (dec_lt q (r + capacity)) [
                      | yes lt ↦
                          ap (λ (u : Slot A). u.sequence) (same q k.unread lt ne) ∙ k.unpublished lt
                      | no ge ↦
                          subst (λ n. (left_slots s (n % capacity)).sequence ≡ n)
                            (omega (arith, l, ge)) lap
                    ];
                  },
                  λ l. (omega arith, ap (λ (u : Slot A). u.item) (same q k.unread l ne)),
                ))
              (h.owned j);
        unique = h.unique;
      }
