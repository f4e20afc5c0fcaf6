-- ===== src/Ring/Chain.antt =====
-- What a ring holds: from the read position on a run of published slots, then a run of free ones.
-- Positions count without bound; the machine keeps them modulo 2^64.
use polymarket_tickscope.Base.{
  ℕ, zero, suc, ◌+◌, ◌%◌, ◌<◌, ◌≤◌, ◌≡◌, sym, ◌∙◌, ◌≢◌, ◌⊎◌, inl, inr, List, [], ◌∷◌, ◌++◌, arith,
  length, update, update_ne, word_mod, mod-ne_of_near,
}
use polymarket_tickscope.Ring.{Slot}

add-zero : (n : ℕ) → n + 0 ≡ n
add-zero n = omega arith

pub add-suc_left : (p n : ℕ) → p + suc n ≡ suc p + n
add-suc_left p n = omega arith

module _ (capacity : ℕ) where
  -- Slot `j` is not one of the `n` slots from position `p` on.
  abbrev pub Away : ℕ → ℕ → ℕ → Type 0
  Away j p n = ((j < p) × (p + n ≤ j + capacity)) ⊎ ((p + n ≤ j) × (j < p + capacity))

  Away-head : (j p n : ℕ) → Away j p (suc n) → j % capacity ≢ p % capacity
  Away-head j p n (inl a) e = mod-ne_of_near capacity j p a.0 (omega arith) e
  Away-head j p n (inr a) e = mod-ne_of_near capacity p j (omega arith) a.1 (sym e)

  Away-tail : (j p n : ℕ) → Away j p (suc n) → Away j (suc p) n
  Away-tail j p n (inl a) = inl (omega arith)
  Away-tail j p n (inr a) = inr (omega arith)

module _ {A : Type 0} (capacity : ℕ) where
  -- The items `q` stand published at the positions from `p` on.
  abbrev pub Published : (ℕ → Slot A) → ℕ → List A → Type 0
  Published slots p [] = Unit
  Published slots p (x ∷ q) =
      (slots (p % capacity) ≡ record { sequence = (p + 1) % word_mod; item = x })
      × Published slots (suc p) q

  -- The `n` slots from position `p` on wait for the producer of exactly that position.
  abbrev pub Free : (ℕ → Slot A) → ℕ → ℕ → Type 0
  Free slots p zero = Unit
  Free slots p (suc n) = ((slots (p % capacity)).sequence ≡ p % word_mod) × Free slots (suc p) n

  -- Writing a slot that is away from a run leaves the run as it is.
  pub Published-update :
      (slots : ℕ → Slot A) (j p : ℕ) (s : Slot A) (q : List A)
      → Away capacity j p (length q)
      → Published slots p q
      → Published (update slots (j % capacity) s) p q
  Published-update slots j p s [] a h = tt
  Published-update slots j p s (x ∷ q) a h = (
    update_ne slots (j % capacity) (p % capacity) s (Away-head capacity j p (length q) a) ∙ h.0,
    Published-update slots j (suc p) s q (Away-tail capacity j p (length q) a) h.1,
  )

  pub Free-update :
      (slots : ℕ → Slot A) (j p : ℕ) (s : Slot A) (n : ℕ)
      → Away capacity j p n
      → Free slots p n
      → Free (update slots (j % capacity) s) p n
  Free-update slots j p s zero a h = tt
  Free-update slots j p s (suc n) a h = (
    rw (update_ne slots (j % capacity) (p % capacity) s (Away-head capacity j p n a)) h.0,
    Free-update slots j (suc p) s n (Away-tail capacity j p n a) h.1,
  )

  -- A run grows at its end.
  pub Published-append :
      (slots : ℕ → Slot A) (p : ℕ) (q : List A) (x : A)
      → Published slots p q
      → slots ((p + length q) % capacity)
        ≡ record { sequence = (p + length q + 1) % word_mod; item = x }
      → Published slots p (q ++ x ∷ [])
  Published-append slots p [] x h e = (rw add-zero at e, tt)
  Published-append slots p (y ∷ q) x h e =
      (h.0, Published-append slots (suc p) q x h.1 (rw add-suc_left at e))

  pub Free-append :
      (slots : ℕ → Slot A) (p n : ℕ)
      → Free slots p n
      → (slots ((p + n) % capacity)).sequence ≡ (p + n) % word_mod
      → Free slots p (suc n)
  Free-append slots p zero h e = (rw add-zero at e, tt)
  Free-append slots p (suc n) h e = (h.0, Free-append slots (suc p) n h.1 (rw add-suc_left at e))
