-- ===== src/Tickerplant/Drain.antt =====
-- What has been recorded after some ticks, and what the drain adds.
use polymarket_tickscope.Base.{
  ℕ, zero, suc, ◌%◌, ◌<◌, ◌≡◌, refl, ap, ◌∙◌, List, [], ◌∷◌, ◌++◌, map, some, arith, ◌==◌,
  if◌then◌else◌, word_mod, length, length-append, append-cons, append-nil,
}
use mathlib.Core.List.{map-append}
use polymarket_tickscope.Base.Text.{Text}
use polymarket_tickscope.Core.{Tick}
use polymarket_tickscope.Rdb.{OrderBook, apply_tick}
use polymarket_tickscope.Tickerplant.{Setup, TickQueue, Plant, append_journal, record_tick, drain}

-- The book after a stream: price changes are applied, trades are not.
unfoldable pub book_of : {F : Type 0} → OrderBook F → List (Tick F) → OrderBook F
book_of b [] = b
book_of b (t ∷ ts) = book_of (if t.event_type == 0 then apply_tick t b else b) ts

-- The ticks of a journal, in the order of the writes.
abbrev pub journalled : {F : Type 0} → Plant F → List (Tick F)
journalled p = map (λ w. w.1) p.journal

module _ {F : Type 0} (setup : Setup) (book : OrderBook F) where
  -- `done` are the ticks recorded so far, starting from `book`: journalled each once and in order,
  -- counted, and the price changes among them applied; a file is open.
  pub record Recorded (p : Plant F) (done : List (Tick F)) : Type 0 where
    pub written : p.ticks_written ≡ length done % word_mod
    pub applied : p.book ≡ book_of book done
    pub journal : journalled p ≡ done
    pub path : Text
    pub opened : p.file ≡ some path

  book_of-append :
      (b : OrderBook F) (ts : List (Tick F)) (t : Tick F)
      → book_of b (ts ++ t ∷ [])
        ≡ (if t.event_type == 0 then apply_tick t (book_of b ts) else book_of b ts)
  unfolding book_of
  book_of-append b [] t = refl
  book_of-append b (x ∷ ts) t =
      book_of-append (if x.event_type == 0 then apply_tick x b else b) ts t

  pub record_tick-Recorded :
      (tick : Tick F) (p : Plant F) (done : List (Tick F))
      → Recorded p done
      → Recorded (record_tick setup tick p) (done ++ tick ∷ [])
  unfolding record_tick
  record_tick-Recorded tick p done r = record {
    written = omega (arith, r.written, length-append done (tick ∷ []));
    applied = rw (r.applied, book_of-append book done tick);
    journal =
        rw (r.opened, append_journal)
          (map-append (λ w. w.1) p.journal ((r.path, tick) ∷ [])
            ∙ ap (λ l. l ++ tick ∷ []) r.journal);
    path = r.path;
    opened = r.opened;
  }

  module _ (queue : TickQueue F) where
    open queue use {State, consume, Holds, consume_none, consume_some}

    -- With more fuel than ticks that wait, the drain records all of them and leaves the queue
    -- empty.
    pub drain-Recorded :
        (fuel : ℕ) (p : Plant F) (s : State) (done waiting : List (Tick F))
        → length waiting < fuel
        → Holds s waiting
        → Recorded p done
        → Recorded (drain setup queue fuel (p, s)).0 (done ++ waiting)
          × Holds (drain setup queue fuel (p, s)).1 []
    unfolding drain
    drain-Recorded zero p s done waiting f h r = absurd (omega arith)
    drain-Recorded (suc fuel) p s done [] f h r = rw (consume_none s h, drain) (rw append-nil r, h)
    drain-Recorded (suc fuel) p s done (x ∷ waiting) f h r =
        let (s', e, h') = consume_some s x waiting h in
        rw (e, drain, append-cons done x waiting)
          (drain-Recorded fuel (record_tick setup x p) s' (done ++ x ∷ []) waiting (omega arith) h'
            (record_tick-Recorded x p done r))
