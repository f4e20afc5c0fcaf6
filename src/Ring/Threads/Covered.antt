-- ===== src/Ring/Threads/Covered.antt =====
-- Where a claimed position that was not read is.
use native.Mathlib.Nat.{mod-eq_of_lt}
use polymarket_tickscope.Base.{
  some_inj, ℕ, ◌+◌, ◌%◌, ◌<◌, ◌≤◌, ◌≡◌, refl, sym, ap, subst, ◌∙◌, ◌⊎◌, inl, inr, List, [], ◌∷◌,
  length, length-append, some, if_pos, if_neg, ℕ_discrete, dec_lt, update, update_self, update_ne,
  word_mod, arith,
}
use polymarket_tickscope.Ring.{Slot}
use polymarket_tickscope.Ring.Threads.{
  Pc, idle, spinning, entered, stored, System, Action, begins, goes_on, consumes, claim, slot_at,
  put_slot, advance, act, run,
}
use polymarket_tickscope.Ring.Threads.Log.{item_at-bound}
use polymarket_tickscope.Ring.Threads.Claims.{position, Claims, Owns, IsOrderly, other_slot}
use polymarket_tickscope.Ring.Threads.Fifo.{act-IsOrderly, run-length}
use polymarket_tickscope.Ring.Threads.Release.{left_slot, released, take_one_cases}

module _ {A : Type 0} (capacity : ℕ) where
  -- Some thread inside `produce` has claimed position `p`.
  abbrev pub Held : (ℕ → Pc A) → ℕ → Type 0
  Held pc p = (i : ℕ) × (position (pc i) ≡ some p)

  abbrev pub IsPublished : (ℕ → Slot A) → ℕ → ℕ → Type 0
  IsPublished slots r p = (p < r + capacity) × ((slots (p % capacity)).sequence ≡ p + 1)

  -- Every claimed position that is not read is published or held.
  abbrev pub IsCovered : System A → Type 0
  IsCovered s =
      (p : ℕ)
      → s.ring.read_index ≤ p
      → p < length s.claimed
      → Held s.pc p ⊎ IsPublished s.ring.slots s.ring.read_index p

  -- A thread that keeps its position, or had none.
  Held-update :
      (pc : ℕ → Pc A) (i p : ℕ) (c : Pc A)
      → (position (pc i) ≡ some p → position c ≡ some p)
      → Held pc p
      → Held (update pc i c) p
  Held-update pc i p c keep (j, e) = elim (ℕ_discrete i j) [
    | yes same ↦ (
      i,
      ap position (update_self pc i c) ∙ keep (subst (λ k. position (pc k) ≡ some p) (sym same) e),
    )
    | no ne ↦ (j, ap position (update_ne pc i j c ne) ∙ e)
  ]

  claim-IsCovered :
      (i : ℕ) (x : A) (c : Pc A) (s : System A)
      → s.pc i ≡ c
      → IsOrderly capacity s
      → IsCovered s
      → IsCovered (claim capacity i x c s)
  unfolding claim position
  claim-IsCovered i x (spinning _ _) s e h v = v
  claim-IsCovered i x (entered _ _) s e h v = v
  claim-IsCovered i x (stored _ _) s e h v = v
  claim-IsCovered i x idle s e h v = λ p a b. elim (dec_lt p (length s.claimed)) [
    | yes lt ↦ elim (v p a lt) [
      | inl held ↦ inl (
          Held-update s.pc i p (spinning s.ring.write_index x)
            (λ k. absurd (cc (sym (ap position e) ∙ k))) held)
      | inr done ↦ inr done
    ]
    | no ge ↦ inl (
      i,
      ap position (update_self s.pc i (spinning s.ring.write_index x))
          ∙ ap some (h.write ∙ omega (arith, b, ge, length-append s.claimed (x ∷ []))),
    )
  ]

  -- A step that keeps the position and the sequences.
  kept-IsCovered :
      (slots : ℕ → Slot A) (i : ℕ) (c c' : Pc A) (s : System A)
      → s.pc i ≡ c
      → position c' ≡ position c
      → ((q : ℕ) → (slots (q % capacity)).sequence ≡ (s.ring.slots (q % capacity)).sequence)
      → IsCovered s
      → IsCovered (record s { ring = record s.ring { slots = slots }; pc = update s.pc i c' })
  kept-IsCovered slots i c c' s e same seq v p a b = elim (v p a b) [
    | inl held ↦ inl (Held-update s.pc i p c' (λ k. same ∙ (sym (ap position e) ∙ k)) held)
    | inr (lt, q) ↦ inr (lt, seq p ∙ q)
  ]

  publish-IsCovered :
      (i p : ℕ) (x : A) (s : System A)
      → s.pc i ≡ stored p x
      → length s.claimed + 1 < word_mod
      → IsOrderly capacity s
      → IsCovered s
      → IsCovered (advance capacity i (stored p x) s)
  unfolding advance put_slot slot_at position
  publish-IsCovered i p x s e b h v q low bound =
      let slots = s.ring.slots in
      let r = s.ring.read_index in
      let t : Slot A = record {
        sequence = (p + 1) % word_mod;
        item = (slots (p % capacity)).item;
      } in
      let (mine, high, _) : Claims capacity slots r s.claimed p x
          × (p < r + capacity)
          × ((slots (p % capacity)).item ≡ x) =
        subst (Owns capacity slots r s.claimed) e (h.owned i) in
      elim (ℕ_discrete p q) [
        | yes same ↦
            subst
              (λ k. Held (update s.pc i idle) k ⊎ IsPublished (update slots (p % capacity) t) r k)
              same
              (inr (
                high,
                ap (λ (u : Slot A). u.sequence) (update_self slots (p % capacity) t)
                    ∙ mod-eq_of_lt (omega (arith, b, item_at-bound p s.claimed mine.logged)),
              ))
        | no ne ↦ elim (v q low bound) [
          | inl held ↦ inl (
              Held-update s.pc i q idle (λ k. absurd (ne (some_inj (sym (ap position e) ∙ k))))
                held)
          | inr (lt, done) ↦ inr (
            lt,
            ap (λ (u : Slot A). u.sequence)
                  (other_slot capacity slots r p t mine.unread high q low lt ne)
                ∙ done,
          )
        ]
      ]

  release-IsCovered : (s : System A) → 0 < capacity → IsCovered s → IsCovered (released capacity s)
  release-IsCovered s pos v q low bound = elim (v q (omega arith) bound) [
    | inl held ↦ inl held
    | inr (lt, done) ↦ inr (
      omega arith,
      ap (λ (u : Slot A). u.sequence)
            (other_slot capacity s.ring.slots s.ring.read_index s.ring.read_index
              (left_slot capacity s) (omega arith) (omega arith) q (omega arith) lt
              (omega (arith, low)))
          ∙ done,
    )
  ]

  advance-IsCovered :
      (i : ℕ) (c : Pc A) (s : System A)
      → s.pc i ≡ c
      → length s.claimed + 1 < word_mod
      → IsOrderly capacity s
      → IsCovered s
      → IsCovered (advance capacity i c s)
  unfolding advance slot_at put_slot position
  advance-IsCovered i idle s e b h v = v
  advance-IsCovered i (spinning p x) s e b h v =
      elim (ℕ_discrete (s.ring.slots (p % capacity)).sequence p) [
        | yes free ↦
            subst IsCovered (sym (if_pos (ℕ_discrete _ _) free _ _))
              (kept-IsCovered s.ring.slots i (spinning p x) (entered p x) s e refl (λ q. refl) v)
        | no busy ↦ subst IsCovered (sym (if_neg (ℕ_discrete _ _) busy _ _)) v
      ]
  advance-IsCovered i (entered p x) s e b h v =
      let t : Slot A = record { sequence = (s.ring.slots (p % capacity)).sequence; item = x } in
      kept-IsCovered (update s.ring.slots (p % capacity) t) i (entered p x) (stored p x) s e refl
        (λ q. elim (ℕ_discrete (p % capacity) (q % capacity)) [
          | yes same ↦
              subst
                (λ k. (update s.ring.slots (p % capacity) t k).sequence ≡ (s.ring.slots k).sequence)
                same (ap (λ (u : Slot A). u.sequence) (update_self s.ring.slots (p % capacity) t))
          | no ne ↦
              ap (λ (u : Slot A). u.sequence)
                (update_ne s.ring.slots (p % capacity) (q % capacity) t ne)
        ])
        v
  advance-IsCovered i (stored p x) s e b h v = publish-IsCovered i p x s e b h v

  act-IsCovered :
      (a : Action A) (s : System A)
      → 1 < capacity
      → length s.claimed + capacity < word_mod
      → IsOrderly capacity s
      → IsCovered s
      → IsCovered (act capacity a s)
  unfolding act
  act-IsCovered (begins i x) s big b h v = claim-IsCovered i x (s.pc i) s refl h v
  act-IsCovered (goes_on i) s big b h v = advance-IsCovered i (s.pc i) s refl (omega arith) h v
  act-IsCovered consumes s big b h v =
      elim (take_one_cases capacity s (omega (arith, h.read, b)) big) [
        | inl e ↦ subst IsCovered (sym e) v
        | inr (ready, e) ↦ subst IsCovered (sym e) (release-IsCovered s (omega arith) v)
      ]

  pub run-IsCovered :
      (actions : List (Action A)) (s : System A)
      → 1 < capacity
      → length (run capacity actions s).claimed + capacity < word_mod
      → IsOrderly capacity s
      → IsCovered s
      → IsCovered (run capacity actions s)
  unfolding run
  run-IsCovered [] s big b h v = v
  run-IsCovered (a ∷ rest) s big b h v =
      let below : length s.claimed + capacity < word_mod =
        omega (arith, run-length capacity (a ∷ rest) s, b) in
      run-IsCovered rest (act capacity a s) big b (act-IsOrderly capacity a s big below h)
        (act-IsCovered a s big below h v)
