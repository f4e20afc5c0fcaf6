-- ===== src/Tickerplant/Kept.antt =====
-- What rotations and maintenance do to what has been recorded.
use polymarket_tickscope.Base.{
  ℕ, ◌+◌, ◌%◌, ◌≡◌, refl, ap, List, Bool, not, ltb, ◌==◌, ◌&&◌, true, false, Bool-cases, inl, inr,
  if◌then◌else◌, word_mod, Option, some,
}
use polymarket_tickscope.Base.Text.{Text}
use polymarket_tickscope.Core.{Tick}
use polymarket_tickscope.Rdb.{OrderBook}
use polymarket_tickscope.Tickerplant.{
  Setup, Round, Plant, fopen, make_journal_path, time_slot, forced_rotation, rotate, maintain,
}
use polymarket_tickscope.Tickerplant.Drain.{Recorded}

module _ {F : Type 0} (setup : Setup) (book : OrderBook F) where
  pub forced_rotation-Recorded :
      (r : Round) (p : Plant F) (done : List (Tick F))
      → r.opens ≡ true
      → Recorded setup book p done
      → Recorded setup book (forced_rotation setup r p) done
  unfolding forced_rotation
  forced_rotation-Recorded r p done o h = elim (Bool-cases r.force_rotate) [
    | inl e ↦
        rw (e, o)
          record {
            written = h.written;
            applied = h.applied;
            journal = h.journal;
            path = _;
            opened = refl;
          }
    | inr e ↦ rw e h
  ]

  if-Recorded :
      (b : Bool) (p q : Plant F) (done : List (Tick F))
      → Recorded setup book p done
      → Recorded setup book q done
      → Recorded setup book (if b then p else q) done
  if-Recorded true p q done h k = h
  if-Recorded false p q done h k = k

  -- What does not touch the journal, the book and the counter.
  pub kept :
      (file : Option Text) (path : Text) (slot iters last : ℕ) (p : Plant F) (done : List (Tick F))
      → file ≡ some path
      → Recorded setup book p done
      → Recorded setup book
          (record p {
            file = file;
            current_slot = slot;
            loop_iters = iters;
            last_maintenance = last;
          })
          done
  kept file path slot iters last p done e h = record {
    written = h.written;
    applied = h.applied;
    journal = h.journal;
    path = path;
    opened = e;
  }

  pub maintain-Recorded :
      (r : Round) (p : Plant F) (done : List (Tick F))
      → r.opens ≡ true
      → Recorded setup book p done
      → Recorded setup book (maintain setup r p) done
  unfolding maintain rotate
  maintain-Recorded r p done o h =
      let iters : ℕ = (p.loop_iters + 1) % word_mod in
      let same = λ (now : ℕ). kept p.file h.path p.current_slot iters now p done h.opened h in
      let path : Text = make_journal_path setup r.now in
      let rotated =
        kept (fopen r.opens path) path (time_slot setup r.now) iters r.now p done
          (ap (λ b. fopen b path) o) h in
      let moved : Bool =
        ltb 0 setup.rotation_interval_minutes && not (time_slot setup r.now == p.current_slot) in
      if-Recorded (not (iters % 1024 == 0)) _ _ done (same p.last_maintenance) (
        if-Recorded (r.now == p.last_maintenance) _ _ done (same p.last_maintenance)
          (if-Recorded moved _ _ done rotated (same r.now)))
