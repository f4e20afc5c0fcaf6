-- ===== src/Harvester/Capture/Follows.antt =====
-- A schedule of the pipeline as the tickerplant's session sees it: the ticks that arrive at the
-- queue, and the rounds of its loop.
use polymarket_tickscope.Base.{
  ◌≡◌, refl, sym, ap, ◌∙◌, subst, List, [], ◌∷◌, ◌++◌, append_assoc, append-nil, Bool-cases, inl,
  inr, none, some, Option-cases, some_inj,
}
use polymarket_tickscope.Base.Json.{Json}
use polymarket_tickscope.Base.Double.{Double}
use polymarket_tickscope.Core.{Tick}
use polymarket_tickscope.Tickerplant.{Setup, TickQueue, Plant}
use polymarket_tickscope.Tickerplant.Session.{
  arrives, rounds, AllOpen, accepted, length-accepted-le, session-Recorded,
}
use polymarket_tickscope.Tickerplant.Session
use polymarket_tickscope.Feedhandler.{push_tick}
use polymarket_tickscope.Feedhandler.Work.{Round, pushes, throws}
use polymarket_tickscope.Gateway.Client.{
  max_payload_bytes, sent_full, marked, closed, arrived, extended, sent_new, dropped, restarted,
  stopped,
}
use polymarket_tickscope.Gateway.Client
use polymarket_tickscope.Harvester.Capture.{
  Event, client, element, plant, client_step, load, Capture, iterate, is_blocked, step, run,
  ticks_in, carried_by, carried,
}

module _ {F : Type 0} where
  -- The ticks that arrive at the queue, taken or not.
  unfoldable pub arrivals : List (Session.Event F) → List (Tick F)
  arrivals [] = []
  arrivals (arrives tick ∷ es) = tick ∷ arrivals es
  arrivals (rounds r ∷ es) = arrivals es

  arrivals-append :
      (xs ys : List (Session.Event F)) → arrivals (xs ++ ys) ≡ arrivals xs ++ arrivals ys
  unfolding arrivals
  arrivals-append [] ys = refl
  arrivals-append (arrives t ∷ xs) ys = ap (◌∷◌ t) (arrivals-append xs ys)
  arrivals-append (rounds r ∷ xs) ys = arrivals-append xs ys

module _ (num : Double) (json : Json num.F) (setup : Setup) (queue : TickQueue num.F) where
  open num use {F}
  open queue use {State, produce, Holds}

  -- What the queue and the tickerplant see of the rest of a message's loop, and of a step.
  unfoldable pub front : List (Round F) → List (Session.Event F)
  front [] = []
  front (pushes (some tick) ∷ rs) = arrives tick ∷ []
  front (pushes none ∷ rs) = []
  front (throws ∷ rs) = []

  unfoldable pub seen : Event → Capture num json setup queue → List (Session.Event F)
  seen (client e) s = []
  seen element s = front s.work
  seen (plant r) s = rounds r ∷ []

  unfoldable pub trace : List Event → Capture num json setup queue → List (Session.Event F)
  trace [] s = []
  trace (e ∷ es) s =
      seen e s ++ elim (step num json setup queue e s) [ none ↦ [] | some next ↦ trace es next ]

  run-append :
      (xs ys : List (Session.Event F)) (now : Plant F × State)
      → Session.run setup queue (xs ++ ys) now
        ≡ Session.run setup queue ys (Session.run setup queue xs now)
  unfolding Session.run
  run-append [] ys now = refl
  run-append (x ∷ xs) ys now = run-append xs ys (Session.step setup queue x now)

  -- What a session's events act on.
  abbrev pub side : Capture num json setup queue → Plant F × State
  side s = (s.tp, s.ring)

  -- One step, as the tickerplant's session sees it: the same plant and queue, and no tick of the
  -- messages lost on the way.
  record Follows (e : Event) (s s' : Capture num json setup queue) : Type 0 where
    same : side s' ≡ Session.run setup queue (seen e s) (side s)
    whole :
        ticks_in num json setup queue s.work ++ carried_by num json setup queue e s
        ≡ arrivals (seen e s) ++ ticks_in num json setup queue s'.work

  ticks_in-append :
      (xs ys : List (Round F))
      → ticks_in num json setup queue (xs ++ ys)
        ≡ ticks_in num json setup queue xs ++ ticks_in num json setup queue ys
  unfolding ticks_in
  ticks_in-append [] ys = refl
  ticks_in-append (pushes none ∷ xs) ys = ticks_in-append xs ys
  ticks_in-append (pushes (some t) ∷ xs) ys = ap (◌∷◌ t) (ticks_in-append xs ys)
  ticks_in-append (throws ∷ xs) ys = ticks_in-append xs ys

  iterate-Follows :
      (rs : List (Round F)) (s s' : Capture num json setup queue)
      → s.work ≡ rs
      → iterate num json setup queue rs s ≡ some s'
      → (side s' ≡ Session.run setup queue (front rs) (side s))
        × (ticks_in num json setup queue rs
            ≡ arrivals (front rs) ++ ticks_in num json setup queue s'.work)
  unfolding iterate front Session.run Session.step arrivals ticks_in push_tick
  iterate-Follows [] s s' h e =
      subst
        (λ (x : Capture num json setup queue).
          (side x ≡ side s) × ([] ≡ ticks_in num json setup queue x.work))
        (some_inj e) (refl, rw h refl)
  iterate-Follows (pushes none ∷ rs) s s' h e =
      subst
        (λ (x : Capture num json setup queue).
          (side x ≡ side s)
          × (ticks_in num json setup queue rs ≡ ticks_in num json setup queue x.work))
        (some_inj e) (refl, refl)
  iterate-Follows (pushes (some t) ∷ rs) s s' h e =
      subst
        (λ (x : Capture num json setup queue).
          (side x ≡ (s.tp, (produce t s.ring).1))
          × (t ∷ ticks_in num json setup queue rs ≡ t ∷ ticks_in num json setup queue x.work))
        (some_inj e) (refl, refl)
  iterate-Follows (throws ∷ rs) s s' h e = absurd (cc e)

  client-Follows :
      (c : Client.Event) (s : Capture num json setup queue)
      → (next : Capture num json setup queue) × (step num json setup queue (client c) s ≡ some next)
        × Follows (client c) s next
  unfolding step seen Session.run carried_by arrivals
  client-Follows c s = elim (Bool-cases (is_blocked num json setup queue c s)) [
    | inl b ↦ (s, rw b refl, record { same = refl; whole = rw (b, append-nil) refl })
    | inr b ↦ (
      record s { wsc = client_step c s.wsc; work = s.work ++ load num json c },
      rw b refl,
      record { same = refl; whole = rw b (sym (ticks_in-append s.work (load num json c))) },
    )
  ]

  step-Follows :
      (e : Event) (s s' : Capture num json setup queue)
      → step num json setup queue e s ≡ some s'
      → Follows e s s'
  unfolding step seen Session.run Session.step carried_by arrivals
  step-Follows (client c) s s' e =
      let (next, f, h) = client-Follows c s in subst (Follows (client c) s) (some_inj (sym f ∙ e)) h
  step-Follows element s s' e =
      let (same, whole) = iterate-Follows s.work s s' refl e in
      record { same = same; whole = rw append-nil whole }
  step-Follows (plant r) s s' e =
      subst (Follows (plant r) s) (some_inj e) record { same = refl; whole = rw append-nil refl }

  run-cons :
      (e : Event) (es : List Event) (s s' : Capture num json setup queue)
      → run num json setup queue (e ∷ es) s ≡ some s'
      → (next : Capture num json setup queue) × (step num json setup queue e s ≡ some next)
        × (run num json setup queue es next ≡ some s')
  unfolding run
  run-cons e es s s' h = elim (Option-cases (step num json setup queue e s)) [
    | inl f ↦ absurd (let none_some = rw (f, run) at h in cc none_some)
    | inr (next, f) ↦ (next, f, rw (f, run) at h)
  ]

  -- The same of a whole schedule.
  pub run-Follows :
      (es : List Event) (s s' : Capture num json setup queue)
      → run num json setup queue es s ≡ some s'
      → (side s' ≡ Session.run setup queue (trace es s) (side s))
        × (ticks_in num json setup queue s.work ++ carried num json setup queue es s
            ≡ arrivals (trace es s) ++ ticks_in num json setup queue s'.work)
  unfolding run trace carried Session.run arrivals
  run-Follows [] s s' e =
      subst
        (λ (x : Capture num json setup queue).
          (side x ≡ side s)
          × (ticks_in num json setup queue s.work ++ [] ≡ ticks_in num json setup queue x.work))
        (some_inj e) (refl, rw append-nil refl)
  run-Follows (e ∷ es) s s' h =
      let (next, f, k) = run-cons e es s s' h in
      let here = step-Follows e s next f in
      let (same, whole) = run-Follows es next s' k in
      rw f (
        same
            ∙ (ap (Session.run setup queue (trace es next)) here.same
                ∙ sym (run-append (seen e s) (trace es next) (side s))),
        sym (append_assoc _ (carried_by num json setup queue e s) _)
            ∙ ap (λ l. l ++ carried num json setup queue es next) here.whole
            ∙ append_assoc (arrivals (seen e s)) _ _
            ∙ ap (◌++◌ (arrivals (seen e s))) whole
            ∙ sym (append_assoc (arrivals (seen e s)) _ _)
            ∙ ap (λ l. l ++ ticks_in num json setup queue s'.work)
                (sym (arrivals-append (seen e s) (trace es next))),
      )
