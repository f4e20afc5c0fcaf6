-- ===== src/Tickerplant/Session.antt =====
-- Whole runs: ticks arrive, the loop makes rounds, and at the end the queue is drained.
use polymarket_tickscope.Base.{
  ℕ, suc, ◌≤◌, ◌<◌, ◌≡◌, refl, sym, ap, subst, List, [], ◌∷◌, ◌∙◌, ◌++◌, append_assoc, Bool,
  length-append, true, false, Bool-cases, inl, inr, arith, if◌then◌else◌, length, append-cons,
  append-nil,
}
use polymarket_tickscope.Core.{Tick}
use polymarket_tickscope.Rdb.{OrderBook}
use polymarket_tickscope.Tickerplant.{
  Setup, TickQueue, Round, Plant, forced_rotation, take_tick, round, drain, start,
}
use polymarket_tickscope.Tickerplant.Kept.{forced_rotation-Recorded, maintain-Recorded}
use polymarket_tickscope.Tickerplant.Drain.{book_of, Recorded, drain-Recorded, record_tick-Recorded}

-- What happens to the two threads, in the order in which it does.
pub data Event (F : Type 0) : Type 0 where
  arrives : Tick F → Event F
  rounds : Round → Event F

append-if :
    {A : Type 0} (b : Bool) (xs : List A) (x : A) (ys : List A)
    → (if b then xs ++ x ∷ [] else xs) ++ ys ≡ xs ++ (if b then x ∷ ys else ys)
append-if true xs x ys = sym (append-cons xs x ys)
append-if false xs x ys = refl

length-if :
    {A : Type 0} (b : Bool) (x : A) (ys : List A) (n : ℕ)
    → length ys ≤ n
    → length (if b then x ∷ ys else ys) ≤ suc n
length-if true x ys n h = omega arith
length-if false x ys n h = omega arith

module _ {F : Type 0} (setup : Setup) (queue : TickQueue F) where
  open queue use {State, produce, Holds, consume_none, consume_some, produce_taken, produce_dropped}

  unfoldable pub step : Event F → Plant F × State → Plant F × State
  step (arrives tick) (p, s) = (p, (produce tick s).1)
  step (rounds r) (p, s) = round setup queue r (p, s)

  unfoldable pub run : List (Event F) → Plant F × State → Plant F × State
  run [] now = now
  run (e ∷ es) now = run es (step e now)

  -- The ticks that the queue took.
  unfoldable pub accepted : List (Event F) → Plant F × State → List (Tick F)
  accepted [] now = []
  accepted (arrives tick ∷ es) (p, s) =
      let rest = accepted es (step (arrives tick) (p, s)) in
      if (produce tick s).0 then tick ∷ rest else rest
  accepted (rounds r ∷ es) now = accepted es (step (rounds r) now)

  pub length-accepted-le :
      (es : List (Event F)) (now : Plant F × State) → length (accepted es now) ≤ length es
  unfolding accepted
  length-accepted-le [] now = omega arith
  length-accepted-le (arrives tick ∷ es) (p, s) =
      length-if (produce tick s).0 tick _ (length es) (length-accepted-le es _)
  length-accepted-le (rounds r ∷ es) now =
      omega (arith, length-accepted-le es (step (rounds r) now))

  -- Every rotation finds its file.
  abbrev pub AllOpen : List (Event F) → Type 0
  AllOpen [] = Unit
  AllOpen (arrives _ ∷ es) = AllOpen es
  AllOpen (rounds r ∷ es) = (r.opens ≡ true) × AllOpen es

  module _ (book : OrderBook F) where
    -- `done` is recorded, and with what waits it makes up all that was taken.
    pub record Covers (now : Plant F × State) (taken : List (Tick F)) : Type 0 where
      pub done : List (Tick F)
      pub waiting : List (Tick F)
      pub whole : done ++ waiting ≡ taken
      pub recorded : Recorded setup book now.0 done
      pub holds : Holds now.1 waiting

    pub moved :
        (p p' : Plant F) (s : State) (taken : List (Tick F)) (h : Covers (p, s) taken)
        → Recorded setup book p' h.done
        → Covers (p', s) taken
    moved p p' s taken h r = record {
      done = h.done;
      waiting = h.waiting;
      whole = h.whole;
      recorded = r;
      holds = h.holds;
    }

    take_tick-Covers :
        (p : Plant F) (s : State) (taken : List (Tick F))
        → Covers (p, s) taken
        → Covers (take_tick setup queue (p, s)) taken
    unfolding take_tick
    take_tick-Covers p s taken h = go h.waiting h.whole h.holds
      where
        go :
            (waiting : List (Tick F))
            → h.done ++ waiting ≡ taken
            → Holds s waiting
            → Covers (take_tick setup queue (p, s)) taken
        go [] w k = rw (consume_none s k, take_tick) h
        go (x ∷ q) w k =
            let (s', e, k') = consume_some s x q k in
            rw (e, take_tick)
              (record {
                done = h.done ++ x ∷ [];
                waiting = q;
                whole = sym (append-cons h.done x q) ∙ w;
                recorded = record_tick-Recorded setup book x p h.done h.recorded;
                holds = k';
              })

    pub round-Covers :
        (r : Round) (now : Plant F × State) (taken : List (Tick F))
        → r.opens ≡ true
        → Covers now taken
        → Covers (round setup queue r now) taken
    unfolding round
    round-Covers r (p, s) taken o h =
        let forced : Covers (forced_rotation setup r p, s) taken =
          moved _ _ s taken h (forced_rotation-Recorded setup book r p h.done o h.recorded) in
        let k = take_tick-Covers (forced_rotation setup r p) s taken forced in
        moved _ _ _ taken k (maintain-Recorded setup book r _ k.done o k.recorded)

    pub arrives-Covers :
        (tick : Tick F) (p : Plant F) (s : State) (taken : List (Tick F))
        → Covers (p, s) taken
        → Covers (p, (produce tick s).1) (if (produce tick s).0 then taken ++ tick ∷ [] else taken)
    arrives-Covers tick p s taken h = elim (Bool-cases (produce tick s).0) [
      | inl e ↦ rw e record {
        done = h.done;
        waiting = h.waiting ++ tick ∷ [];
        whole = sym (append_assoc h.done h.waiting (tick ∷ [])) ∙ ap (λ l. l ++ tick ∷ []) h.whole;
        recorded = h.recorded;
        holds = produce_taken tick s h.waiting h.holds e;
      }
      | inr e ↦ rw e record {
        done = h.done;
        waiting = h.waiting;
        whole = h.whole;
        recorded = h.recorded;
        holds = produce_dropped tick s h.waiting h.holds e;
      }
    ]

    pub run-Covers :
        (es : List (Event F)) (now : Plant F × State) (taken : List (Tick F))
        → AllOpen es
        → Covers now taken
        → Covers (run es now) (taken ++ accepted es now)
    unfolding run accepted step
    run-Covers [] now taken o h = rw append-nil h
    run-Covers (arrives tick ∷ es) (p, s) taken o h =
        subst (Covers (run es (p, (produce tick s).1)))
          (append-if (produce tick s).0 taken tick (accepted es (p, (produce tick s).1)))
          (run-Covers es (p, (produce tick s).1) _ o (arrives-Covers tick p s taken h))
    run-Covers (rounds r ∷ es) now taken o h =
        run-Covers es (round setup queue r now) taken o.1 (round-Covers r now taken o.0 h)

    -- For any queue that meets TickQueue, a session from a fresh plant and an empty queue,
    -- in which every file opens, followed by a drain with more fuel than ticks were taken,
    -- has journalled exactly the ticks that the queue took, each once and in order, has
    -- counted them modulo 2^64, has applied just the price changes among them to the book,
    -- and leaves the queue empty.
    pub session-Recorded :
        (now : ℕ) (s : State) (es : List (Event F)) (fuel : ℕ)
        → Holds s []
        → AllOpen es
        → length (accepted es (start setup now book, s)) < fuel
        → Recorded setup book
            (drain setup queue fuel (run es (start setup now book, s))).0
            (accepted es (start setup now book, s))
          × Holds (drain setup queue fuel (run es (start setup now book, s))).1 []
    unfolding start book_of
    session-Recorded now s es fuel h o f =
        let k : Covers (run es (start setup now book, s)) (accepted es (start setup now book, s)) =
          run-Covers es (start setup now book, s) [] o
            record {
              done = [];
              waiting = [];
              whole = refl;
              recorded = record {
                written = refl;
                applied = refl;
                journal = refl;
                path = _;
                opened = refl;
              };
              holds = h;
            } in
        let d =
          drain-Recorded setup book queue fuel _ _ k.done k.waiting
            (omega (arith, length-append k.done k.waiting, ap length k.whole, f)) k.holds
            k.recorded in
        (subst (Recorded setup book _) k.whole d.0, d.1)
