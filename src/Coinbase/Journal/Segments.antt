-- ===== src/Coinbase/Journal/Segments.antt =====
-- Which file of the journal each tick goes to.
use native.Mathlib.Nat.{div-add-mod, div-lt_iff_lt-mul, le-div_iff_mul-le}
use polymarket_tickscope.Base.{
  ℕ, suc, ◌+◌, ◌-◌, ◌*◌, ◌/◌, ◌<◌, ◌≤◌, ◌≡◌, refl, sym, ap, subst, List, [], ◌∷◌, map, All,
  All-append, Bool, true, false, Bool-cases, inl, inr, length, Option, some, arith, leb, ltb,
  if◌then◌else◌,
}
use polymarket_tickscope.Base.Text.{Text}
use polymarket_tickscope.Core.{BtcTick}
use polymarket_tickscope.Coinbase.Journal.{
  Setup, BtcJournal, buf_cap, new_journal, flush, flush_full, store, elapsed_ms, close_segment,
  open_segment, rotate_if_needed, write, write_all, close, rotation_ms, segment_path,
}

-- A time at most a period past the start of a segment lies in that segment.
same_segment : (k n t : ℕ) → 0 < k → n * k ≤ t → t < n * k + k → t / k ≡ n
same_segment k n t h lo hi =
    let a : n ≤ t / k = (le-div_iff_mul-le h).1 lo in
    let b : t / k < suc n = (div-lt_iff_lt-mul h).1 (omega (arith, hi)) in omega arith

-- The file of the segment that a time lies in.
unfoldable pub path_at : Setup → ℕ → Text
path_at setup ts = segment_path setup (ts / rotation_ms setup * rotation_ms setup)

within :
    (k t start lo : ℕ)
    → start ≡ lo
    → leb k (if ltb start t then t - start else 0) ≡ false
    → t < lo + k
within k t start lo e h = ground arith

module _ {F : Type 0} (setup : Setup) (timed : 0 < rotation_ms setup) where
  abbrev pub Filed : Option Text × BtcTick F → Type 0
  Filed h = h.0 ≡ some (path_at setup h.1.timestamp)

  abbrev pub InSegment : ℕ → BtcTick F → Type 0
  InSegment slot t = t.timestamp / rotation_ms setup ≡ slot

  -- What has been flushed is filed right, and the buffer belongs to the open segment.
  pub record Ordered (slot last : ℕ) (j : BtcJournal F) : Type 0 where
    pub start : j.segment_start_ms ≡ slot * rotation_ms setup
    pub before : slot * rotation_ms setup ≤ last
    pub opened : j.file ≡ some (segment_path setup (slot * rotation_ms setup))
    pub buffered : All (InSegment slot) j.buf
    pub filed : All Filed j.history

  flushed :
      (slot : ℕ) (ts : List (BtcTick F))
      → All (InSegment slot) ts
      → All Filed (map (λ t. (some (segment_path setup (slot * rotation_ms setup)), t)) ts)
  unfolding path_at
  flushed slot [] h = tt
  flushed slot (t ∷ ts) h =
      (ap (λ n. some (segment_path setup (n * rotation_ms setup))) (sym h.0), flushed slot ts h.1)

  flush-Ordered :
      (slot last : ℕ) (j : BtcJournal F) → Ordered slot last j → Ordered slot last (flush j)
  unfolding flush
  flush-Ordered slot last j h = record {
    start = h.start;
    before = h.before;
    opened = h.opened;
    buffered = tt;
    filed = All-append Filed j.history _ h.filed (rw h.opened (flushed slot j.buf h.buffered));
  }

  flush_full-Ordered :
      (slot last : ℕ) (j : BtcJournal F) → Ordered slot last j → Ordered slot last (flush_full j)
  unfolding flush_full
  flush_full-Ordered slot last j h = elim (Bool-cases (leb buf_cap (length j.buf))) [
    | inl e ↦ rw e (flush-Ordered slot last j h)
    | inr e ↦ rw e h
  ]

  -- A segment that opens for `ts` is that of `ts`.
  open_segment-Ordered :
      (ts : ℕ) (j : BtcJournal F)
      → j.buf ≡ []
      → All Filed j.history
      → Ordered (ts / rotation_ms setup) ts (open_segment setup true ts j)
  unfolding open_segment
  open_segment-Ordered ts j e h = record {
    start = refl;
    before = omega (arith, div-add-mod ts (rotation_ms setup));
    opened = refl;
    buffered = subst (All (InSegment (ts / rotation_ms setup))) (sym e) tt;
    filed = h;
  }

  -- After the rotation the open segment is that of `ts`.
  rotate-Ordered :
      (slot last ts : ℕ) (j : BtcJournal F)
      → last ≤ ts
      → Ordered slot last j
      → Ordered (ts / rotation_ms setup) ts (rotate_if_needed setup true ts j)
  unfolding rotate_if_needed close_segment elapsed_ms flush
  rotate-Ordered slot last ts j le h =
      elim (Bool-cases (leb (rotation_ms setup) (elapsed_ms ts j))) [
        | inl e ↦
            rw (h.opened, rotate_if_needed, e)
              (open_segment-Ordered ts _ refl (flush-Ordered slot last j h).filed)
        | inr e ↦
            rw (h.opened, rotate_if_needed, e)
              (subst (λ n. Ordered n ts j)
                (sym (
                  same_segment (rotation_ms setup) slot ts timed (omega (arith, h.before))
                    (within (rotation_ms setup) ts j.segment_start_ms _ h.start e)))
                (record {
                  start = h.start;
                  before = omega (arith, h.before);
                  opened = h.opened;
                  buffered = h.buffered;
                  filed = h.filed;
                }))
      ]

  store-Ordered :
      (tick : BtcTick F) (j : BtcJournal F)
      → Ordered (tick.timestamp / rotation_ms setup) tick.timestamp j
      → Ordered (tick.timestamp / rotation_ms setup) tick.timestamp (store tick j)
  unfolding store
  store-Ordered tick j h = record {
    start = h.start;
    before = h.before;
    opened = h.opened;
    buffered = All-append _ j.buf (tick ∷ []) h.buffered (refl, tt);
    filed = h.filed;
  }

  stored :
      (tick : BtcTick F) (j : BtcJournal F)
      → Ordered (tick.timestamp / rotation_ms setup) tick.timestamp j
      → Ordered
          (tick.timestamp / rotation_ms setup)
          tick.timestamp
          (flush_full (store tick (flush_full j)))
  stored tick j h = flush_full-Ordered _ _ _ (store-Ordered tick _ (flush_full-Ordered _ _ j h))

  -- Every file opens, and no time is before the last.
  abbrev pub Rising : ℕ → List (Bool × BtcTick F) → Type 0
  Rising last [] = Unit
  Rising last ((opens, t) ∷ ts) = (opens ≡ true) × (last ≤ t.timestamp) × Rising t.timestamp ts

  write-Ordered :
      (slot last : ℕ) (opens : Bool) (t : BtcTick F) (j : BtcJournal F)
      → opens ≡ true
      → last ≤ t.timestamp
      → Ordered slot last j
      → Ordered (t.timestamp / rotation_ms setup) t.timestamp (write setup opens t j)
  unfolding write
  write-Ordered slot last opens t j o le h =
      rw o (stored t _ (rotate-Ordered slot last t.timestamp j le h))

  close-Ordered :
      (slot last : ℕ) (j : BtcJournal F) → Ordered slot last j → All Filed (close j).history
  unfolding close close_segment
  close-Ordered slot last j h = (flush-Ordered slot last j h).filed

  write_all-Ordered :
      (ts : List (Bool × BtcTick F)) (slot last : ℕ) (j : BtcJournal F)
      → Rising last ts
      → Ordered slot last j
      → All Filed (close (write_all setup ts j)).history
  unfolding write_all
  write_all-Ordered [] slot last j r h = close-Ordered slot last j h
  write_all-Ordered ((opens, t) ∷ ts) slot last j r h =
      write_all-Ordered ts (t.timestamp / rotation_ms setup) t.timestamp (write setup opens t j) r.2
        (write-Ordered slot last opens t j r.0 r.1 h)

  first-Ordered :
      (opens : Bool) (t : BtcTick F)
      → opens ≡ true
      → Ordered (t.timestamp / rotation_ms setup) t.timestamp (write setup opens t new_journal)
  unfolding write rotate_if_needed new_journal
  first-Ordered opens t o = rw o (stored t _ (open_segment-Ordered t.timestamp _ refl tt))

  fresh-Filed : (j : BtcJournal F) → j.history ≡ [] → j.buf ≡ [] → All Filed (close j).history
  unfolding close close_segment flush
  fresh-Filed j h b = rw (h, b) tt

  -- With a rotation period that is not 0, files that all open and times that never decrease,
  -- every tick of a closed journal went to the file of the segment of its own time.
  pub write_all-Filed :
      (ts : List (Bool × BtcTick F))
      → Rising 0 ts
      → All Filed (close (write_all setup ts new_journal)).history
  unfolding write_all new_journal
  write_all-Filed [] r = fresh-Filed new_journal refl refl
  write_all-Filed ((opens, t) ∷ ts) r =
      write_all-Ordered ts (t.timestamp / rotation_ms setup) t.timestamp
        (write setup opens t new_journal) r.2 (first-Ordered opens t r.0)
