-- ===== src/Tickerplant/Source.antt =====
-- The ring buffer as the tickerplant's queue: what Ring/Refine.antt proves fills `TickQueue`.
use polymarket_tickscope.Base.{
  ℕ, ◌≡◌, sym, ap, ◌∙◌, subst, List, [], ◌∷◌, ◌++◌, true, false, arith, ℕ_discrete, length,
}
use polymarket_tickscope.Core.{Tick}
use polymarket_tickscope.Ring.{RingBuffer, try_produce, consume}
use polymarket_tickscope.Ring.Queue.{push, push_full, push_room}
use polymarket_tickscope.Ring.Holds.{IsCapacity, Holds}
use polymarket_tickscope.Ring.Refine.{try_produce_refines, consume_refines}
use polymarket_tickscope.Tickerplant.{TickQueue}

module _ {A : Type 0} (capacity : ℕ) where
  pub push-true :
      (q : List A) (x : A) → (push capacity q x).0 ≡ true → (push capacity q x).1 ≡ q ++ x ∷ []
  push-true q x h = elim (ℕ_discrete (length q) capacity) [
    | yes e ↦ ground (arith, push_full capacity q x e)
    | no e ↦ ap (λ k. k.1) (push_room capacity q x e)
  ]

  pub push-false : (q : List A) (x : A) → (push capacity q x).0 ≡ false → (push capacity q x).1 ≡ q
  push-false q x h = elim (ℕ_discrete (length q) capacity) [
    | yes e ↦ ap (λ k. k.1) (push_full capacity q x e)
    | no e ↦ ground (arith, push_room capacity q x e)
  ]

module _ {F : Type 0} (capacity : ℕ) (c : IsCapacity capacity) where
  -- The I/O thread calls `try_produce`, the tickerplant `consume`.
  abbrev pub ring_queue : TickQueue F
  ring_queue = record {
    State = RingBuffer (Tick F);
    produce = λ x r. try_produce capacity r x;
    consume = consume capacity;
    Holds = λ r q. (count : ℕ) × Holds capacity r count q;
    consume_none = λ r h. consume_refines capacity c [] h.1;
    consume_some =
        λ r x q h. let (r', e, h') = consume_refines capacity c (x ∷ q) h.1 in (r', e, (_, h'));
    produce_taken = λ x r q h e.
        let s = try_produce_refines capacity c x h.1 in
        (
          h.0,
          subst (Holds capacity (try_produce capacity r x).1 h.0)
              (push-true capacity q x (sym s.0 ∙ e)) s.1,
        );
    produce_dropped = λ x r q h e.
        let s = try_produce_refines capacity c x h.1 in
        (
          h.0,
          subst (Holds capacity (try_produce capacity r x).1 h.0)
              (push-false capacity q x (sym s.0 ∙ e)) s.1,
        );
  }
