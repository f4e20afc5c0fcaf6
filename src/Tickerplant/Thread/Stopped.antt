-- ===== src/Tickerplant/Thread/Stopped.antt =====
-- What the consumer's thread has recorded once it has been stopped and joined.
use polymarket_tickscope.Base.{
  ℕ, ◌+◌, ◌<◌, ◌≡◌, refl, sym, ap, subst, ◌∙◌, ◌⊎◌, inl, inr, List, [], ◌∷◌, Bool, true, false,
  length, length-append, arith, if◌then◌else◌,
}
use polymarket_tickscope.Rdb.{OrderBook}
use polymarket_tickscope.Tickerplant.{Setup, TickQueue, Plant, round, record_tick}
use polymarket_tickscope.Tickerplant
use polymarket_tickscope.Tickerplant.Drain.{book_of}
use polymarket_tickscope.Tickerplant.Kept.{kept}
use polymarket_tickscope.Tickerplant.Session.{Covers, moved, round-Covers, arrives-Covers}
use polymarket_tickscope.Tickerplant.Thread.Drained.{Ended, drain-Ended}
use polymarket_tickscope.Tickerplant.Thread.Taken.{length-taken-le}
use polymarket_tickscope.Tickerplant.Thread.{
  Pc, constructed, looping, draining, Step, arrived, asked, turned, Thread, construct, start, stop,
  loop, turn, turn_at, step, run, turns, destroy,
}

module _ {F : Type 0} (setup : Setup) (queue : TickQueue F) (book : OrderBook F) where
  open queue use {State, produce, Holds, consume_none, consume_some}

  -- Before `stop`: what was taken is recorded or waits, and the thread, at `c`, is not started or
  -- loops.
  pub record IsUp (c : Pc) (t : Thread setup queue) : Type 0 where
    pub covers : Covers setup queue book (t.plant, t.ring) t.taken
    pub at : t.pc ≡ c
    pub place : (c ≡ constructed) ⊎ (c ≡ looping) × (t.running ≡ true)

  -- Every rotation finds its file.
  abbrev pub AllOpen : List (Step F) → Type 0
  AllOpen [] = Unit
  AllOpen (arrived _ ∷ es) = AllOpen es
  AllOpen (asked ∷ es) = AllOpen es
  AllOpen (turned now opens ∷ es) = (opens ≡ true) × AllOpen es

  loop-IsUp :
      (now : ℕ) (opens : Bool) (t : Thread setup queue)
      → opens ≡ true
      → t.pc ≡ looping
      → t.running ≡ true
      → Covers setup queue book (t.plant, t.ring) t.taken
      → IsUp looping (loop setup queue now opens t)
  loop-IsUp now opens t o e f c = record {
    covers =
        round-Covers setup queue book
          (record { force_rotate = t.force_rotate; now = now; opens = opens }) (t.plant, t.ring)
          t.taken o c;
    at = e;
    place = inr (refl, f);
  }

  turn-IsUp :
      (now : ℕ) (opens : Bool) (c : Pc) (t : Thread setup queue)
      → opens ≡ true
      → IsUp c t
      → IsUp c (turn setup queue now opens t)
  unfolding turn_at
  turn-IsUp now opens c t o u = elim u.place [
    | inl e ↦ subst (λ d. IsUp c (turn_at setup queue d now opens t)) (sym (u.at ∙ e)) u
    | inr (e, f) ↦
        let looped : IsUp looping (turn_at setup queue looping now opens t) =
          subst
            (λ b.
              IsUp looping (if b then loop setup queue now opens t else record t { pc = draining }))
            (sym f) (loop-IsUp now opens t o (u.at ∙ e) f u.covers) in
        subst (λ d. IsUp c (turn_at setup queue d now opens t)) (sym (u.at ∙ e))
          (subst (λ d. IsUp d (turn_at setup queue looping now opens t)) (sym e) looped)
  ]

  run-IsUp :
      (es : List (Step F)) (c : Pc) (t : Thread setup queue)
      → AllOpen es
      → IsUp c t
      → IsUp c (run setup queue es t)
  unfolding run step
  run-IsUp [] c t o u = u
  run-IsUp (arrived tick ∷ es) c t o u = run-IsUp es c _ o record {
    covers = arrives-Covers setup queue book tick t.plant t.ring t.taken u.covers;
    at = u.at;
    place = u.place;
  }
  run-IsUp (asked ∷ es) c t o u =
      run-IsUp es c _ o record { covers = u.covers; at = u.at; place = u.place }
  run-IsUp (turned now opens ∷ es) c t o u =
      run-IsUp es c (turn setup queue now opens t) o.1 (turn-IsUp now opens c t o.0 u)

  start-IsUp :
      (now : ℕ) (t : Thread setup queue)
      → Covers setup queue book (t.plant, t.ring) t.taken
      → IsUp looping (start setup queue now t)
  start-IsUp now t c = record {
    covers =
        moved setup queue book t.plant (record t.plant { loop_iters = 0; last_maintenance = now })
          t.ring t.taken c
          (kept setup book t.plant.file c.recorded.path t.plant.current_slot 0 now t.plant c.done
            c.recorded.opened c.recorded);
    at = refl;
    place = inr (refl, refl);
  }

  construct-IsUp :
      (now : ℕ) (s : State) → Holds s [] → IsUp constructed (construct setup queue now book s)
  unfolding Tickerplant.start book_of
  construct-IsUp now s h = record {
    covers = record {
      done = [];
      waiting = [];
      whole = refl;
      recorded = record { written = refl; applied = refl; journal = refl; path = _; opened = refl };
      holds = h;
    };
    at = refl;
    place = inl refl;
  }

  -- The life of a plant up to its destructor.
  abbrev pub lived : ℕ → ℕ → State → List (Step F) → List (Step F) → Thread setup queue
  lived now started s before es =
      run setup queue es
        (start setup queue started (run setup queue before (construct setup queue now book s)))

  -- With enough turns, a thread that loops ends after `stop`.
  stop-Ended :
      (t : Thread setup queue) (rest : List (ℕ × Bool))
      → IsUp looping t
      → length t.taken + 1 < length rest
      → Ended setup queue book (turns setup queue rest (stop setup queue t)) t.taken
  unfolding turns turn_at
  stop-Ended t [] u f = absurd (omega arith)
  stop-Ended t ((now, opens) ∷ rest) u f =
      let c = u.covers in
      let next : Thread setup queue = record t { running = false; pc = draining } in
      subst
        (λ d.
          Ended setup queue book
            (turns setup queue rest (turn_at setup queue d now opens (stop setup queue t))) t.taken)
        (sym u.at)
        (subst (Ended setup queue book (turns setup queue rest next)) c.whole (
          drain-Ended setup queue book rest next c.done c.waiting refl
            (omega (arith, ap length c.whole, length-append c.done c.waiting)) c.holds c.recorded))

  -- For any queue that meets TickQueue, a plant is built on an empty queue, started, and
  -- destroyed, with ticks, requests to rotate and turns of its thread in any order in
  -- between, and every file opens: where ticks no longer come after the stop, and the thread
  -- then gets at least two more turns than there were steps, it has ended with an empty
  -- queue, and every tick that the queue took, before the start too, is journalled once and
  -- in order, counted, and in the book if it is a price change.
  pub destroy-Recorded :
      (now started : ℕ) (s : State) (before es : List (Step F)) (rest : List (ℕ × Bool))
      → Holds s []
      → AllOpen before
      → AllOpen es
      → length before + length es + 1 < length rest
      → Ended setup queue book
          (destroy setup queue rest (lived now started s before es))
          (lived now started s before es).taken
  unfolding destroy
  destroy-Recorded now started s before es rest h o p f =
      let built = construct-IsUp now s h in
      let waited = run-IsUp before constructed (construct setup queue now book s) o built in
      let begun =
        start-IsUp started (run setup queue before (construct setup queue now book s))
          waited.covers in
      stop-Ended (lived now started s before es) rest (run-IsUp es looping _ p begun) (
        omega (
          arith,
          f,
          length-taken-le setup queue before (construct setup queue now book s),
          length-taken-le setup queue es (
              start setup queue started
                (run setup queue before (construct setup queue now book s))),
        ))
