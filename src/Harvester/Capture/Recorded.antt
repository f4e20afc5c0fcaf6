-- ===== src/Harvester/Capture/Recorded.antt =====
-- Whole captures: from the messages of the exchange to the journal.
use polymarket_tickscope.Base.{
  ℕ, ◌<◌, ◌≤◌, ◌≡◌, refl, sym, subst, List, [], ◌∷◌, ◌++◌, true, Bool-cases, inl, inr, Option, none,
  some, Option-cases, arith, ltb, length, length-append, if_either,
}
use polymarket_tickscope.Base.Text.{Text, codes}
use polymarket_tickscope.Base.Json.{Json}
use polymarket_tickscope.Base.Double.{Double}
use polymarket_tickscope.Rdb.{OrderBook}
use polymarket_tickscope.Tickerplant.{Setup, TickQueue, Plant, drain}
use polymarket_tickscope.Tickerplant.Drain.{Recorded}
use polymarket_tickscope.Tickerplant.Session.{
  arrives, rounds, AllOpen, accepted, length-accepted-le, session-Recorded,
}
use polymarket_tickscope.Tickerplant.Session
use polymarket_tickscope.Feedhandler.Work.{
  Round, pushes, throws, NoThrow, NoThrow-append, work_of-NoThrow,
}
use polymarket_tickscope.Feedhandler.Work.{AllObjects}
use polymarket_tickscope.Gateway.Client.{
  max_payload_bytes, sent_full, marked, closed, arrived, extended, sent_new, dropped, restarted,
  stopped,
}
use polymarket_tickscope.Gateway.Client
use polymarket_tickscope.Harvester.Capture.{
  Event, client, element, plant, client_step, load, Capture, open_capture, iterate, is_blocked,
  step, run, shutdown, ticks_in, carried,
}
use polymarket_tickscope.Harvester.Capture.Follows.{arrivals, front, seen, trace, side, run-Follows}

-- Every rotation finds its file.
abbrev pub FilesOpen : List Event → Type 0
FilesOpen [] = Unit
FilesOpen (client _ ∷ es) = FilesOpen es
FilesOpen (element ∷ es) = FilesOpen es
FilesOpen (plant r ∷ es) = (r.opens ≡ true) × FilesOpen es

module _ (num : Double) (json : Json num.F) (setup : Setup) (queue : TickQueue num.F) where
  open num use {F}
  open queue use {State, produce, Holds}

  front-AllOpen :
      (rs : List (Round F)) (xs : List (Session.Event F))
      → AllOpen setup queue xs
      → AllOpen setup queue (front num json setup queue rs ++ xs)
  unfolding front
  front-AllOpen [] xs h = h
  front-AllOpen (pushes none ∷ rs) xs h = h
  front-AllOpen (pushes (some t) ∷ rs) xs h = h
  front-AllOpen (throws ∷ rs) xs h = h

  seen-AllOpen :
      (e : Event) (es : List Event) (s : Capture num json setup queue) (xs : List (Session.Event F))
      → FilesOpen (e ∷ es)
      → AllOpen setup queue xs
      → AllOpen setup queue (seen num json setup queue e s ++ xs)
  unfolding seen
  seen-AllOpen (client c) es s xs o h = h
  seen-AllOpen element es s xs o h = front-AllOpen s.work xs h
  seen-AllOpen (plant r) es s xs o h = (o.0, h)

  later : (e : Event) (es : List Event) → FilesOpen (e ∷ es) → FilesOpen es
  later (client c) es o = o
  later element es o = o
  later (plant r) es o = o.1

  trace-AllOpen :
      (es : List Event) (s : Capture num json setup queue)
      → FilesOpen es
      → AllOpen setup queue (trace num json setup queue es s)
  unfolding trace seen
  trace-AllOpen [] s o = tt
  trace-AllOpen (e ∷ es) s o = elim (Option-cases (step num json setup queue e s)) [
    | inl f ↦ rw f (seen-AllOpen e es s [] o tt)
    | inr (next, f) ↦ rw f (
        seen-AllOpen e es s (trace num json setup queue es next) o
          (trace-AllOpen es next (later e es o)))
  ]

  length-front-le : (rs : List (Round F)) → length (front num json setup queue rs) ≤ 1
  unfolding front
  length-front-le [] = omega arith
  length-front-le (pushes none ∷ rs) = omega arith
  length-front-le (pushes (some t) ∷ rs) = omega arith
  length-front-le (throws ∷ rs) = omega arith

  length-seen-le :
      (e : Event) (s : Capture num json setup queue) → length (seen num json setup queue e s) ≤ 1
  unfolding seen
  length-seen-le (client c) s = omega arith
  length-seen-le element s = length-front-le s.work
  length-seen-le (plant r) s = omega arith

  length-trace-le :
      (es : List Event) (s : Capture num json setup queue)
      → length (trace num json setup queue es s) ≤ length es
  unfolding trace seen
  length-trace-le [] s = omega arith
  length-trace-le (e ∷ es) s = elim (Option-cases (step num json setup queue e s)) [
    | inl f ↦
        rw f (omega (arith, length-append (seen num json setup queue e s) [], length-seen-le e s))
    | inr (next, f) ↦ rw f (
        omega (
          arith,
          length-append (seen num json setup queue e s) (trace num json setup queue es next),
          length-seen-le e s,
          length-trace-le es next,
        ))
  ]

  -- The elements of every array of price changes are objects.
  abbrev pub ObjectsOnly : Type 0
  ObjectsOnly =
      (obj : json.Object) (changes : List (Option json.Object))
      → json.get_array (codes "price_changes") obj ≡ some changes
      → AllObjects num json queue changes

  load-NoThrow : (c : Client.Event) → ObjectsOnly → NoThrow num json (load num json c)
  unfolding load
  load-NoThrow (arrived now payload) objects =
      if_either (NoThrow num json) (ltb max_payload_bytes (length payload)) (λ _. tt)
        (λ _. work_of-NoThrow num json queue payload objects)
  load-NoThrow sent_full objects = tt
  load-NoThrow (marked now) objects = tt
  load-NoThrow closed objects = tt
  load-NoThrow (extended tokens) objects = tt
  load-NoThrow (sent_new tokens) objects = tt
  load-NoThrow dropped objects = tt
  load-NoThrow (restarted later) objects = tt
  load-NoThrow stopped objects = tt

  iterate-returns :
      (rs : List (Round F)) (s : Capture num json setup queue)
      → NoThrow num json s.work
      → NoThrow num json rs
      → (next : Capture num json setup queue) × (iterate num json setup queue rs s ≡ some next)
        × NoThrow num json next.work
  unfolding iterate
  iterate-returns [] s k h = (s, refl, k)
  iterate-returns (pushes t ∷ rs) s k h = (_, refl, h)
  iterate-returns (throws ∷ rs) s k h = absurd h

  step-returns :
      (e : Event) (s : Capture num json setup queue)
      → ObjectsOnly
      → NoThrow num json s.work
      → (next : Capture num json setup queue) × (step num json setup queue e s ≡ some next)
        × NoThrow num json next.work
  unfolding step
  step-returns (client c) s objects h = elim (Bool-cases (is_blocked num json setup queue c s)) [
    | inl b ↦ (s, rw b refl, h)
    | inr b ↦ (
      record s { wsc = client_step c s.wsc; work = s.work ++ load num json c },
      rw b refl,
      NoThrow-append num json s.work (load num json c) h (load-NoThrow c objects),
    )
  ]
  step-returns element s objects h = iterate-returns s.work s h h
  step-returns (plant r) s objects h = (_, refl, h)

  run-returns :
      (es : List Event) (s : Capture num json setup queue)
      → ObjectsOnly
      → NoThrow num json s.work
      → (last : Capture num json setup queue) × (run num json setup queue es s ≡ some last)
  unfolding run
  run-returns [] s objects h = (s, refl)
  run-returns (e ∷ es) s objects h =
      let (next, f, k) = step-returns e s objects h in
      let (last, g) = run-returns es next objects k in (last, rw (f, run) g)

  -- For any queue that meets TickQueue, from an empty queue and with files that open, where
  -- the elements of every price_changes array are objects: whatever steps the client, the
  -- loop over each message and the tickerplant take, in any order, the run returns; after
  -- the final drain, with more fuel than there were steps, the journal has exactly the ticks
  -- that the queue took, each once and in order, with the counter and the book that belong
  -- to them, and the queue is empty; and the ticks of the messages, in order, are those
  -- offered to the queue and then those that the I/O thread has yet to offer.
  pub shutdown-run-Recorded :
      (book : OrderBook F) (token_ids : List Text) (now : ℕ) (ring : State) (es : List Event)
      (fuel : ℕ)
      → Holds ring []
      → FilesOpen es
      → length es < fuel
      → ObjectsOnly
      → let boot = open_capture num json setup queue token_ids now book ring in
        (last : Capture num json setup queue) × (run num json setup queue es boot ≡ some last)
        × Recorded setup book (shutdown num json setup queue fuel last).0 (
            accepted setup queue
              (trace num json setup queue es boot)
              (side num json setup queue boot))
        × Holds (shutdown num json setup queue fuel last).1 []
        × (carried num json setup queue es boot
            ≡ arrivals (trace num json setup queue es boot)
              ++ ticks_in num json setup queue last.work)
  unfolding open_capture shutdown ticks_in
  shutdown-run-Recorded book token_ids now ring es fuel h o f objects =
      let boot = open_capture num json setup queue token_ids now book ring in
      let (last, e) = run-returns es boot objects tt in
      let (same, whole) = run-Follows num json setup queue es boot last e in
      let recorded =
        session-Recorded setup queue book now ring (trace num json setup queue es boot) fuel h
          (trace-AllOpen es boot o)
          (omega (
            arith,
            length-accepted-le setup queue (trace num json setup queue es boot)
                (side num json setup queue boot),
            length-trace-le es boot,
          )) in
      (
        last,
        e,
        subst
            (λ (now : Plant F × State). Recorded setup book (drain setup queue fuel now).0 (
              accepted setup queue (trace num json setup queue es boot)
                (side num json setup queue boot)))
            (sym same) recorded.0,
        subst (λ (now : Plant F × State). Holds (drain setup queue fuel now).1 []) (sym same)
            recorded.1,
        whole,
      )
