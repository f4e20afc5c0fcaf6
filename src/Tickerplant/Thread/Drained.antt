-- ===== src/Tickerplant/Thread/Drained.antt =====
-- What the final drain of the thread records.
use polymarket_tickscope.Base.{
  ℕ, ◌<◌, ◌≡◌, refl, sym, ap, subst, ◌∙◌, List, [], ◌∷◌, ◌++◌, Bool, some, length, append-cons,
  append-nil, arith,
}
use polymarket_tickscope.Core.{Tick}
use polymarket_tickscope.Rdb.{OrderBook}
use polymarket_tickscope.Tickerplant.{Setup, TickQueue, record_tick}
use polymarket_tickscope.Tickerplant.Drain.{Recorded, record_tick-Recorded}
use polymarket_tickscope.Tickerplant.Thread.{draining, finished, Thread, drain_one, turn_at, turns}

module _ {F : Type 0} (setup : Setup) (queue : TickQueue F) (book : OrderBook F) where
  open queue use {State, produce, Holds, consume_none, consume_some}

  turns_finished :
      (rest : List (ℕ × Bool)) (t : Thread setup queue)
      → t.pc ≡ finished
      → turns setup queue rest t ≡ t
  unfolding turns turn_at
  turns_finished [] t e = refl
  turns_finished ((now, opens) ∷ rest) t e =
      ap (λ c. turns setup queue rest (turn_at setup queue c now opens t)) e
      ∙ turns_finished rest t e

  drain_one-none :
      (t : Thread setup queue)
      → Holds t.ring []
      → drain_one setup queue t ≡ record t { pc = finished }
  unfolding drain_one
  drain_one-none t h = rw (consume_none t.ring h, drain_one) refl

  drain_one-some :
      (t : Thread setup queue) (tick : Tick F) (s : State)
      → queue.consume t.ring ≡ some (tick, s)
      → drain_one setup queue t ≡ record t { plant = record_tick setup tick t.plant; ring = s }
  unfolding drain_one
  drain_one-some t tick s e = rw (e, drain_one) refl

  -- What the thread is at the end, when `done` is recorded.
  abbrev pub Ended : Thread setup queue → List (Tick F) → Type 0
  Ended t done = (t.pc ≡ finished) × Recorded setup book t.plant done × Holds t.ring []

  pub drain-Ended :
      (rest : List (ℕ × Bool)) (t : Thread setup queue) (done waiting : List (Tick F))
      → t.pc ≡ draining
      → length waiting < length rest
      → Holds t.ring waiting
      → Recorded setup book t.plant done
      → Ended (turns setup queue rest t) (done ++ waiting)
  unfolding turns turn_at
  drain-Ended [] t done waiting e f h r = absurd (omega arith)
  drain-Ended ((now, opens) ∷ rest) t done [] e f h r =
      let last : Thread setup queue = record t { pc = finished } in
      let ends : turns setup queue ((now, opens) ∷ rest) t ≡ last =
        ap (λ c. turns setup queue rest (turn_at setup queue c now opens t)) e
        ∙ ap (turns setup queue rest) (drain_one-none t h)
        ∙ turns_finished rest last refl in
      subst (λ x. Ended x (done ++ [])) (sym ends) (refl, rw append-nil r, h)
  drain-Ended ((now, opens) ∷ rest) t done (x ∷ waiting) e f h r =
      let (s', e', h') = consume_some t.ring x waiting h in
      let next : Thread setup queue = record t { plant = record_tick setup x t.plant; ring = s' } in
      let goes : turns setup queue ((now, opens) ∷ rest) t ≡ turns setup queue rest next =
        ap (λ c. turns setup queue rest (turn_at setup queue c now opens t)) e
        ∙ ap (turns setup queue rest) (drain_one-some t x s' e') in
      subst (λ y. Ended y (done ++ (x ∷ waiting))) (sym goes)
        (subst (Ended (turns setup queue rest next)) (sym (append-cons done x waiting)) (
          drain-Ended rest next (done ++ x ∷ []) waiting e (omega arith) h'
            (record_tick-Recorded setup book x t.plant done r)))
