-- ===== src/Ring/Threads/Claims.antt =====
-- Who owns which slot while several threads are inside `produce`: the invariant of the protocol.
use polymarket_tickscope.Base.{
  ℕ, ◌+◌, ◌%◌, ◌<◌, ◌≤◌, ◌≡◌, ◌≢◌, refl, sym, ap, subst, ◌∙◌, ◌⊎◌, inl, inr, List, take, length,
  Option, none, some, dec_lt, ℕ_discrete, update, update_self, update_ne, arith, mod-ne_of_near,
}
use polymarket_tickscope.Ring.{Slot}
use polymarket_tickscope.Ring.Threads.Log.{item_at, item_at-bound}
use polymarket_tickscope.Ring.Threads.{Pc, idle, spinning, entered, stored, System}

module _ {A : Type 0} where
  unfoldable pub position : Pc A → Option ℕ
  position idle = none
  position (spinning pos item) = some pos
  position (entered pos item) = some pos
  position (stored pos item) = some pos

-- Positions in one lap have different slots.
pub apart :
    (capacity r p q : ℕ)
    → r ≤ p
    → p < r + capacity
    → r ≤ q
    → q < r + capacity
    → p ≢ q
    → p % capacity ≢ q % capacity
apart capacity r p q a b c d ne e = elim (dec_lt p q) [
  | yes lt ↦ mod-ne_of_near capacity p q lt (omega arith) e
  | no ge ↦ mod-ne_of_near capacity q p (omega (arith, ne)) (omega arith) (sym e)
]

module _ {A : Type 0} (capacity : ℕ) where
  -- A claim on position `p` for item `x`, in a ring read up to `r`.
  pub record Claims (slots : ℕ → Slot A) (r : ℕ) (log : List A) (p : ℕ) (x : A) : Type 0 where
    pub unread : r ≤ p
    pub logged : item_at p log ≡ some x
    pub unpublished : p < r + capacity → (slots (p % capacity)).sequence ≡ p

  abbrev pub Owns : (ℕ → Slot A) → ℕ → List A → Pc A → Type 0
  Owns slots r log idle = Unit
  Owns slots r log (spinning p x) = Claims slots r log p x
  Owns slots r log (entered p x) = Claims slots r log p x × (p < r + capacity)
  Owns slots r log (stored p x) =
      Claims slots r log p x × (p < r + capacity) × ((slots (p % capacity)).item ≡ x)

  -- Position `p`, in the lap from `r` on, is still to be published, or holds its item.
  abbrev pub Filled : (ℕ → Slot A) → List A → ℕ → Type 0
  Filled slots log p =
      ((slots (p % capacity)).sequence ≡ p)
      ⊎ (((slots (p % capacity)).sequence ≡ p + 1)
          × (item_at p log ≡ some (slots (p % capacity)).item))

  pub record IsOrderly (s : System A) : Type 0 where
    pub write : s.ring.write_index ≡ length s.claimed
    pub read : s.ring.read_index ≤ length s.claimed
    pub order : s.taken ≡ take s.ring.read_index s.claimed
    pub near :
        (p : ℕ)
        → s.ring.read_index ≤ p
        → p < s.ring.read_index + capacity
        → Filled s.ring.slots s.claimed p
    pub far :
        (p : ℕ) → s.ring.read_index + capacity ≤ p → (s.ring.slots (p % capacity)).sequence < p
    pub owned : (i : ℕ) → Owns s.ring.slots s.ring.read_index s.claimed (s.pc i)
    pub unique : (i j p : ℕ) → position (s.pc i) ≡ some p → position (s.pc j) ≡ some p → i ≡ j

  -- What a step must keep of a thread's claim.
  abbrev pub Keeps : (ℕ → Slot A) → ℕ → List A → (ℕ → Slot A) → ℕ → List A → ℕ → Type 0
  Keeps slots r log slots' r' log' p =
      (x : A)
      → Claims slots r log p x
      → Claims slots' r' log' p x
        × (p < r + capacity
            → (p < r' + capacity) × ((slots' (p % capacity)).item ≡ (slots (p % capacity)).item))

  pub Owns-kept :
      (slots slots' : ℕ → Slot A) (r r' : ℕ) (log log' : List A) (c : Pc A)
      → ((p : ℕ) → position c ≡ some p → Keeps slots r log slots' r' log' p)
      → Owns slots r log c
      → Owns slots' r' log' c
  unfolding position
  Owns-kept slots slots' r r' log log' idle k o = tt
  Owns-kept slots slots' r r' log log' (spinning p x) k o = (k p refl x o).0
  Owns-kept slots slots' r r' log log' (entered p x) k o =
      let (claims, rest) = k p refl x o.0 in (claims, (rest o.1).0)
  Owns-kept slots slots' r r' log log' (stored p x) k o =
      let (claims, rest) = k p refl x o.0 in (claims, (rest o.1).0, (rest o.1).1 ∙ o.2)

  -- A thread's position was logged.
  pub Owns-bound :
      (slots : ℕ → Slot A) (r : ℕ) (log : List A) (c : Pc A) (p : ℕ)
      → Owns slots r log c
      → position c ≡ some p
      → (r ≤ p) × (p < length log)
  unfolding position
  Owns-bound slots r log idle p o e = absurd (cc e)
  Owns-bound slots r log (spinning q x) p o e =
      ground (arith, item_at-bound q log o.logged, o.unread)
  Owns-bound slots r log (entered q x) p o e =
      ground (arith, item_at-bound q log o.0.logged, o.0.unread)
  Owns-bound slots r log (stored q x) p o e =
      ground (arith, item_at-bound q log o.0.logged, o.0.unread)

  pub position-update :
      (pc : ℕ → Pc A) (i j p : ℕ) (c : Pc A)
      → position (update pc i c j) ≡ some p
      → ((i ≡ j) × (position c ≡ some p)) ⊎ ((i ≢ j) × (position (pc j) ≡ some p))
  position-update pc i j p c a = elim (ℕ_discrete i j) [
    | yes e ↦ inl (
      e,
      sym (ap position (update_self pc i c))
          ∙ subst (λ k. position (update pc i c k) ≡ some p) (sym e) a,
    )
    | no ne ↦ inr (ne, sym (ap position (update_ne pc i j c ne)) ∙ a)
  ]

  -- Positions stay apart where a thread takes one that no other has.
  pub update_unique :
      (pc : ℕ → Pc A) (i : ℕ) (c : Pc A)
      → ((k p : ℕ) → i ≢ k → position c ≡ some p → position (pc k) ≢ some p)
      → ((j k p : ℕ) → position (pc j) ≡ some p → position (pc k) ≡ some p → j ≡ k)
      → (j k p : ℕ) → position (update pc i c j) ≡ some p
      → position (update pc i c k) ≡ some p
      → j ≡ k
  update_unique pc i c new old j k p a b = elim (position-update pc i j p c a) [
    | inl (e, a') ↦ elim (position-update pc i k p c b) [
      | inl (f, b') ↦ sym e ∙ f
      | inr (ne, b') ↦ absurd (new k p ne a' b')
    ]
    | inr (ne, a') ↦ elim (position-update pc i k p c b) [
      | inl (f, b') ↦ absurd (new j p ne b' a')
      | inr (_, b') ↦ old j k p a' b'
    ]
  ]

  -- A thread that moves on with its position.
  pub update_unique_same :
      (pc : ℕ → Pc A) (i : ℕ) (c c' : Pc A)
      → pc i ≡ c
      → position c' ≡ position c
      → ((j k p : ℕ) → position (pc j) ≡ some p → position (pc k) ≡ some p → j ≡ k)
      → (j k p : ℕ) → position (update pc i c' j) ≡ some p
      → position (update pc i c' k) ≡ some p
      → j ≡ k
  update_unique_same pc i c c' e same old =
      update_unique pc i c' (λ k p ne a b. ne (old i k p (ap position e ∙ (sym same ∙ a)) b)) old

  -- Writing the slot of position `p` of the lap from `r` on.
  module _ (slots : ℕ → Slot A) (r p : ℕ) (t : Slot A) (low : r ≤ p) (high : p < r + capacity) where
    pub other_slot :
        (q : ℕ)
        → r ≤ q
        → q < r + capacity
        → p ≢ q
        → update slots (p % capacity) t (q % capacity) ≡ slots (q % capacity)
    other_slot q a b ne =
        update_ne slots (p % capacity) (q % capacity) t (apart capacity r p q low high a b ne)

    -- The claims on other positions stand.
    pub others-Owns :
        (log : List A) (c : Pc A)
        → ((q : ℕ) → position c ≡ some q → p ≢ q)
        → Owns slots r log c
        → Owns (update slots (p % capacity) t) r log c
    others-Owns log c ne = Owns-kept slots (update slots (p % capacity) t) r r log log c (λ q e x k.
        (
          record {
            unread = k.unread;
            logged = k.logged;
            unpublished = λ l.
                ap (λ (u : Slot A). u.sequence) (other_slot q k.unread l (ne q e))
                ∙ k.unpublished l;
          },
          λ l. (l, ap (λ (u : Slot A). u.item) (other_slot q k.unread l (ne q e))),
        ))

    other-Filled :
        (log : List A) (q : ℕ)
        → r ≤ q
        → q < r + capacity
        → p ≢ q
        → Filled slots log q
        → Filled (update slots (p % capacity) t) log q
    other-Filled log q a b ne f = rw (other_slot q a b ne) f

    -- The lap is filled as before, but for the slot written.
    pub written-Filled :
        (log : List A)
        → ((q : ℕ) → r ≤ q → q < r + capacity → Filled slots log q)
        → Filled (update slots (p % capacity) t) log p
        → (q : ℕ) → r ≤ q
        → q < r + capacity
        → Filled (update slots (p % capacity) t) log q
    written-Filled log old new q a b = elim (ℕ_discrete p q) [
      | yes e ↦ subst (Filled (update slots (p % capacity) t) log) e new
      | no ne ↦ other-Filled log q a b ne (old q a b)
    ]

    -- The sequences of later laps are still behind, where the one written is.
    pub written_far :
        ((q : ℕ) → r + capacity ≤ q → (slots (q % capacity)).sequence < q)
        → ((q : ℕ) → r + capacity ≤ q → p % capacity ≡ q % capacity → t.sequence < q)
        → (q : ℕ) → r + capacity ≤ q
        → (update slots (p % capacity) t (q % capacity)).sequence < q
    written_far old new q a = elim (ℕ_discrete (p % capacity) (q % capacity)) [
      | yes e ↦
          subst (λ k. (update slots (p % capacity) t k).sequence < q) e
            (subst (λ (u : Slot A). u.sequence < q) (sym (update_self slots (p % capacity) t))
              (new q a e))
      | no ne ↦
          subst (λ (u : Slot A). u.sequence < q)
            (sym (update_ne slots (p % capacity) (q % capacity) t ne)) (old q a)
    ]
