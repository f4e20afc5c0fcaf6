-- ===== src/Ring/Threads/Order.antt =====
-- The items that have left the ring, against the log of the claims.
use polymarket_tickscope.Base.{
  ℕ, ◌+◌, ◌%◌, ◌<◌, ◌≤◌, ◌≡◌, ◌≢◌, refl, sym, ap, subst, ◌∙◌, inl, inr, [], ◌∷◌, ◌++◌, length,
  length-append, some, dec_lt, update, update_self, update_either, word_mod, arith, mod-ne_of_near,
}
use native.Mathlib.Nat.{mod-eq_of_lt, mod-lt}
use polymarket_tickscope.Ring.{Slot, init}
use polymarket_tickscope.Ring.Threads.{
  Pc, idle, spinning, entered, stored, System, new_system, claim, slot_at, put_slot, advance,
}
use polymarket_tickscope.Ring.Threads.Log.{
  item_at, item_at-old, item_at-new, item_at-bound, take_old,
}
use polymarket_tickscope.Ring.Threads.Claims.{
  position, Claims, Owns, IsOrderly, Owns-kept, Owns-bound, update_unique, update_unique_same,
  others-Owns, written-Filled, written_far,
}

mod_below : (capacity p : ℕ) → 0 + capacity ≤ p → 0 < capacity → p % capacity < p
mod_below capacity p a pos = omega (arith, mod-lt p pos)

-- Another position with the same slot is more than one further.
later : (capacity p q : ℕ) → 1 < capacity → p < q → p % capacity ≡ q % capacity → p + 1 < q
later capacity p q big lt same = elim (dec_lt (p + 1) q) [
  | yes l ↦ l
  | no ge ↦ absurd (mod-ne_of_near capacity p q lt (omega (arith, ge, big)) same)
]

module _ {A : Type 0} (capacity : ℕ) where
  pub init-IsOrderly : (blank : A) → 0 < capacity → IsOrderly capacity (new_system capacity blank)
  unfolding init position item_at
  init-IsOrderly blank pos = record {
    write = refl;
    read = omega arith;
    order = refl;
    near = λ p a b. inl (mod-eq_of_lt (omega (arith, b)));
    far = λ p a. mod_below capacity p a pos;
    owned = λ i. tt;
    unique = λ i j p a b. absurd (cc a);
  }

  -- The position of a new claim.
  new_claim :
      (s : System A) (x : A)
      → IsOrderly capacity s
      → Claims capacity s.ring.slots s.ring.read_index (s.claimed ++ x ∷ []) s.ring.write_index x
  new_claim s x h = rw h.write (record {
    unread = h.read;
    logged = item_at-new s.claimed x;
    unpublished = λ l. elim (h.near (length s.claimed) h.read l) [
      | inl f ↦ f
      | inr f ↦ absurd (omega (arith, item_at-bound (length s.claimed) s.claimed f.1))
    ];
  })

  fresh :
      (s : System A)
      → IsOrderly capacity s
      → (k p : ℕ) → some s.ring.write_index ≡ some p
      → position (s.pc k) ≢ some p
  fresh s h k p a b =
      let bound =
        Owns-bound capacity s.ring.slots s.ring.read_index s.claimed (s.pc k) p (h.owned k) b in
      ground (arith, a, bound.1, h.write)

  -- A new claim.
  pub claim-IsOrderly :
      (i : ℕ) (x : A) (c : Pc A) (s : System A)
      → s.pc i ≡ c
      → length s.claimed + 1 < word_mod
      → IsOrderly capacity s
      → IsOrderly capacity (claim capacity i x c s)
  unfolding claim position
  claim-IsOrderly i x (spinning _ _) s e b h = h
  claim-IsOrderly i x (entered _ _) s e b h = h
  claim-IsOrderly i x (stored _ _) s e b h = h
  claim-IsOrderly i x idle s e b h =
      let w = length s.claimed in
      let r = s.ring.read_index in
      let slots = s.ring.slots in
      record {
        write = rw h.write (mod-eq_of_lt b ∙ sym (length-append s.claimed (x ∷ [])));
        read = omega (arith, h.read, length-append s.claimed (x ∷ []));
        order = h.order ∙ sym (take_old r s.claimed x h.read);
        near = λ p a b. elim (h.near p a b) [
          | inl f ↦ inl f
          | inr f ↦ inr (f.0, item_at-old p s.claimed x f.1)
        ];
        far = h.far;
        owned = λ j.
            update_either (Owns capacity slots r (s.claimed ++ x ∷ [])) s.pc i j
              (spinning s.ring.write_index x) (new_claim s x h)
              (λ ne.
                Owns-kept capacity slots slots r r s.claimed (s.claimed ++ x ∷ []) (s.pc j)
                  (λ p _ y k. (
                    record {
                      unread = k.unread;
                      logged = item_at-old p s.claimed x k.logged;
                      unpublished = k.unpublished;
                    },
                    λ l. (l, refl),
                  ))
                  (h.owned j));
        unique =
            update_unique capacity s.pc i (spinning s.ring.write_index x)
              (λ k p ne a b. absurd (fresh s h k p a b)) h.unique;
      }

  -- Past the spin: the slot is of this lap.
  pub enter-IsOrderly :
      (i p : ℕ) (x : A) (s : System A)
      → s.pc i ≡ spinning p x
      → (s.ring.slots (p % capacity)).sequence ≡ p
      → IsOrderly capacity s
      → IsOrderly capacity (record s { pc = update s.pc i (entered p x) })
  unfolding position
  enter-IsOrderly i p x s e free h =
      let slots = s.ring.slots in
      let r = s.ring.read_index in
      let mine : Claims capacity slots r s.claimed p x =
        subst (Owns capacity slots r s.claimed) e (h.owned i) in
      let high : p < r + capacity = elim (dec_lt p (r + capacity)) [
        | yes lt ↦ lt
        | no ge ↦ absurd (omega (arith, h.far p (omega (arith, ge)), free))
      ] in
      record {
        write = h.write;
        read = h.read;
        order = h.order;
        near = h.near;
        far = h.far;
        owned = λ j.
            update_either (Owns capacity slots r s.claimed) s.pc i j (entered p x) (mine, high)
              (λ ne. h.owned j);
        unique = update_unique_same capacity s.pc i (spinning p x) (entered p x) e refl h.unique;
      }

  -- The threads that do not move hold other positions.
  others :
      (i p : ℕ) (c : Pc A) (s : System A)
      → s.pc i ≡ c
      → position c ≡ some p
      → IsOrderly capacity s
      → (j : ℕ) → i ≢ j
      → (q : ℕ) → position (s.pc j) ≡ some q
      → p ≢ q
  others i p c s e at h j ne q b same =
      ne (h.unique i j p (ap position e ∙ at) (b ∙ ap some (sym same)))

  -- The store of the item.
  pub store-IsOrderly :
      (i p : ℕ) (x : A) (s : System A)
      → s.pc i ≡ entered p x
      → IsOrderly capacity s
      → IsOrderly capacity (advance capacity i (entered p x) s)
  unfolding position advance put_slot slot_at
  store-IsOrderly i p x s e h =
      let slots = s.ring.slots in
      let r = s.ring.read_index in
      let t : Slot A = record { sequence = (slots (p % capacity)).sequence; item = x } in
      let (mine, high) : Claims capacity slots r s.claimed p x × (p < r + capacity) =
        subst (Owns capacity slots r s.claimed) e (h.owned i) in
      let self = update_self slots (p % capacity) t in
      let free = ap (λ (u : Slot A). u.sequence) self ∙ mine.unpublished high in
      record {
        write = h.write;
        read = h.read;
        order = h.order;
        near = written-Filled capacity slots r p t mine.unread high s.claimed h.near (inl free);
        far =
            written_far capacity slots r p t mine.unread high h.far
              (λ q a b. omega (arith, mine.unpublished high, a, high));
        owned = λ j.
            update_either (Owns capacity (update slots (p % capacity) t) r s.claimed) s.pc i j
              (stored p x)
              (
                record { unread = mine.unread; logged = mine.logged; unpublished = λ _. free },
                high,
                ap (λ (u : Slot A). u.item) self,
              )
              (λ ne.
                others-Owns capacity slots r p t mine.unread high s.claimed (s.pc j)
                  (others i p (entered p x) s e refl h j ne) (h.owned j));
        unique = update_unique_same capacity s.pc i (entered p x) (stored p x) e refl h.unique;
      }

  -- The publication.
  pub publish-IsOrderly :
      (i p : ℕ) (x : A) (s : System A)
      → s.pc i ≡ stored p x
      → 1 < capacity
      → length s.claimed + 1 < word_mod
      → IsOrderly capacity s
      → IsOrderly capacity (advance capacity i (stored p x) s)
  unfolding position advance put_slot slot_at
  publish-IsOrderly i p x s e big b h =
      let slots = s.ring.slots in
      let r = s.ring.read_index in
      let t : Slot A = record {
        sequence = (p + 1) % word_mod;
        item = (slots (p % capacity)).item;
      } in
      let (mine, high, kept) : Claims capacity slots r s.claimed p x
          × (p < r + capacity)
          × ((slots (p % capacity)).item ≡ x) =
        subst (Owns capacity slots r s.claimed) e (h.owned i) in
      let next : (p + 1) % word_mod ≡ p + 1 =
        mod-eq_of_lt (omega (arith, b, item_at-bound p s.claimed mine.logged)) in
      let self = update_self slots (p % capacity) t in
      record {
        write = h.write;
        read = h.read;
        order = h.order;
        near = written-Filled capacity slots r p t mine.unread high s.claimed h.near (
            inr (
              ap (λ (u : Slot A). u.sequence) self ∙ next,
              mine.logged ∙ ap some (sym kept ∙ sym (ap (λ (u : Slot A). u.item) self)),
            ));
        far = written_far capacity slots r p t mine.unread high h.far (λ q a same.
            subst (λ n. n < q) (sym next) (later capacity p q big (omega (arith, a, high)) same));
        owned = λ j.
            update_either (Owns capacity (update slots (p % capacity) t) r s.claimed) s.pc i j idle
              tt
              (λ ne.
                others-Owns capacity slots r p t mine.unread high s.claimed (s.pc j)
                  (others i p (stored p x) s e refl h j ne) (h.owned j));
        unique = update_unique capacity s.pc i idle (λ k q ne a c. cc a) h.unique;
      }
