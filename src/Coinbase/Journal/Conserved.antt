-- ===== src/Coinbase/Journal/Conserved.antt =====
-- The ticks of the journal on their way from the buffer to the files, and the bounds of the
-- buffer.
use polymarket_tickscope.Base.{
  ℕ, ◌<◌, ◌≡◌, refl, sym, ap, ◌∙◌, List, [], ◌∷◌, ◌++◌, map, append_assoc, append-nil, Bool,
  Bool-cases, inl, inr, Option, Option-cases, arith, leb, length,
}
use mathlib.Core.List.{map-append}
use polymarket_tickscope.Base.Text.{Text}
use polymarket_tickscope.Core.{BtcTick}
use polymarket_tickscope.Coinbase.Journal.{
  Setup, BtcJournal, buf_cap, new_journal, flush, flush_full, store, elapsed_ms, close_segment,
  open_segment, rotate_if_needed, write, write_all, close, rotation_ms,
}

module _ {F : Type 0} where
  -- The ticks that came in, as they left the buffer and as they stand in it.
  abbrev pub received : BtcJournal F → List (BtcTick F)
  received j = map (λ h. h.1) j.history ++ j.buf

  -- `buf_pos_` is an index of `buf_`, so that the next store is in bounds.
  abbrev pub InBounds : BtcJournal F → Type 0
  InBounds j = length j.buf < buf_cap

  map-pair :
      (f : Option Text) (ts : List (BtcTick F))
      → map (λ (h : Option Text × BtcTick F). h.1) (map (λ t. (f, t)) ts) ≡ ts
  map-pair f [] = refl
  map-pair f (t ∷ ts) = ap (◌∷◌ t) (map-pair f ts)

  flush-received : (j : BtcJournal F) → received (flush j) ≡ received j
  unfolding flush
  flush-received j =
      rw (append-nil, map-append)
        (ap (◌++◌ (map (λ (h : Option Text × BtcTick F). h.1) j.history)) (map-pair j.file j.buf))

  flush_full-received : (j : BtcJournal F) → received (flush_full j) ≡ received j
  unfolding flush_full
  flush_full-received j = elim (Bool-cases (leb buf_cap (length j.buf))) [
    | inl e ↦ rw e (flush-received j)
    | inr e ↦ rw e refl
  ]

  store-received :
      (tick : BtcTick F) (j : BtcJournal F) → received (store tick j) ≡ received j ++ tick ∷ []
  unfolding store
  store-received tick j = sym (append_assoc _ j.buf (tick ∷ []))

  -- Whatever stood in the buffer, there is room for the store, and for the next one.
  flush_full-InBounds : (j : BtcJournal F) → InBounds (flush_full j)
  unfolding flush_full flush buf_cap
  flush_full-InBounds j = elim (Bool-cases (leb 1024 (length j.buf))) [
    | inl e ↦ rw e (omega arith)
    | inr e ↦ rw e (ground arith)
  ]

  module _ (setup : Setup) where
    rotate_if_needed-received :
        (opens : Bool) (ts : ℕ) (j : BtcJournal F)
        → received (rotate_if_needed setup opens ts j) ≡ received j
    unfolding rotate_if_needed open_segment close_segment
    rotate_if_needed-received opens ts j = elim (Option-cases j.file) [
      | inl e ↦ rw (e, rotate_if_needed) refl
      | inr (f, e) ↦ elim (Bool-cases (leb (rotation_ms setup) (elapsed_ms ts j))) [
        | inl b ↦ rw (e, rotate_if_needed, b) (flush-received j)
        | inr b ↦ rw (e, rotate_if_needed, b) refl
      ]
    ]

    pub write-received :
        (opens : Bool) (tick : BtcTick F) (j : BtcJournal F)
        → received (write setup opens tick j) ≡ received j ++ tick ∷ []
    unfolding write
    write-received opens tick j =
        let rotated = rotate_if_needed setup opens tick.timestamp j in
        flush_full-received (store tick (flush_full rotated))
        ∙ store-received tick (flush_full rotated)
        ∙ ap (λ l. l ++ tick ∷ [])
            (flush_full-received rotated ∙ rotate_if_needed-received opens tick.timestamp j)

    -- Whatever the state of the journal, also with a full buffer, the buffer has room when
    -- a write stores its tick and again when the write is done.
    pub write-InBounds :
        (opens : Bool) (tick : BtcTick F) (j : BtcJournal F)
        → InBounds (flush_full (rotate_if_needed setup opens tick.timestamp j))
          × InBounds (write setup opens tick j)
    unfolding write
    write-InBounds opens tick j = (flush_full-InBounds _, flush_full-InBounds _)

    write_all-received :
        (ts : List (Bool × BtcTick F)) (j : BtcJournal F)
        → received (write_all setup ts j) ≡ received j ++ map (λ (t : Bool × BtcTick F). t.1) ts
    unfolding write_all
    write_all-received [] j = sym (append-nil _)
    write_all-received ((opens, tick) ∷ ts) j =
        write_all-received ts (write setup opens tick j)
        ∙ ap (λ l. l ++ map (λ (t : Bool × BtcTick F). t.1) ts) (write-received opens tick j)
        ∙ append_assoc (received j) (tick ∷ []) _

    -- After any writes to a new journal and its destruction, the ticks that left the
    -- buffer, to a file or dropped, are exactly those written, each once and in order.
    pub close-write_all :
        (ts : List (Bool × BtcTick F))
        → map
            (λ (h : Option Text × BtcTick F). h.1)
            (close (write_all setup ts new_journal)).history
          ≡ map (λ (t : Bool × BtcTick F). t.1) ts
    unfolding close close_segment flush new_journal
    close-write_all ts =
        sym (append-nil _)
        ∙ flush-received (write_all setup ts new_journal)
        ∙ write_all-received ts new_journal
