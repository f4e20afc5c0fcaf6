-- ===== src/Rdb/Invariant.antt =====
-- Every token owns one slot of the table, no two share one, and the slots not handed out are blank.
use polymarket_tickscope.Base.{
  ℕ, ◌≤◌, ◌<◌, ◌≡◌, refl, List, [], ◌∷◌, some, none, arith, length, ◌+◌, inl, inr, Option-cases,
  dec_le,
}
use polymarket_tickscope.Base.Text.{Text, text_eq}
use polymarket_tickscope.Base.Dict.{find, assign, find-assign}
use polymarket_tickscope.Base.Double.{Double}
use polymarket_tickscope.Core.{Tick}
use polymarket_tickscope.Rdb.{
  OrderBook, MarketState, max_tokens, key_of, claim, write_book, apply_tick, empty_book,
  empty_market, apply_ticks,
}

pub record IsValid {F : Type 0} (blank : MarketState F) (b : OrderBook F) : Type 0 where
  pub bounded : b.next_idx ≤ max_tokens
  pub counted : length b.token_to_idx ≡ b.next_idx
  pub known : (t : Text) (i : ℕ) → find text_eq t b.token_to_idx ≡ some i → i < b.next_idx
  pub separate :
      (t u : Text) (i : ℕ)
      → find text_eq t b.token_to_idx ≡ some i
      → find text_eq u b.token_to_idx ≡ some i
      → t ≡ u
  pub unused : (i : ℕ) → b.next_idx ≤ i → b.books i ≡ blank

length-assign_new :
    (k : Text) (v : ℕ) (m : List (Text × ℕ))
    → find text_eq k m ≡ none
    → length (assign text_eq k v m) ≡ length m + 1
unfolding find assign
length-assign_new k v [] h = omega arith
length-assign_new k v ((j, w) ∷ m) h = ground (arith, length-assign_new k v m)

module _ {F : Type 0} (blank : MarketState F) where
  write_book-IsValid :
      (tick : Tick F) (idx : ℕ) (b : OrderBook F)
      → IsValid blank b
      → idx < b.next_idx
      → IsValid blank (write_book tick idx b)
  unfolding write_book
  write_book-IsValid tick idx b v h = record {
    bounded = v.bounded;
    counted = v.counted;
    known = v.known;
    separate = v.separate;
    unused = λ i l. ground (arith, v.unused i l);
  }

  -- The book after a new token took the next slot.
  abbrev pub claimed : Text → OrderBook F → OrderBook F
  claimed key b = record b {
    token_to_idx = assign text_eq key b.next_idx b.token_to_idx;
    next_idx = b.next_idx + 1;
  }

  claimed-IsValid :
      (key : Text) (b : OrderBook F)
      → IsValid blank b
      → find text_eq key b.token_to_idx ≡ none
      → b.next_idx < max_tokens
      → IsValid blank (claimed key b)
  claimed-IsValid key b v new room = record {
    bounded = omega arith;
    counted = omega (arith, v.counted, length-assign_new key b.next_idx b.token_to_idx new);
    known =
        λ t i e. ground (arith, find-assign text_eq key t b.next_idx b.token_to_idx, v.known t i);
    separate = λ t u i e f. ground (
      arith,
      find-assign text_eq key t b.next_idx b.token_to_idx,
      find-assign text_eq key u b.next_idx b.token_to_idx,
      v.known t i,
      v.known u i,
      v.separate t u i,
    );
    unused = λ i l. v.unused i (omega arith);
  }

  -- The three branches of `apply_tick`.
  pub apply_tick_known :
      (tick : Tick F) (b : OrderBook F) (i : ℕ)
      → find text_eq (key_of tick) b.token_to_idx ≡ some i
      → apply_tick tick b ≡ write_book tick i b
  unfolding apply_tick
  apply_tick_known tick b i e = rw (e, apply_tick)

  pub apply_tick_new :
      (tick : Tick F) (b : OrderBook F)
      → find text_eq (key_of tick) b.token_to_idx ≡ none
      → b.next_idx < max_tokens
      → apply_tick tick b ≡ write_book tick b.next_idx (claimed (key_of tick) b)
  unfolding apply_tick claim write_book
  apply_tick_new tick b e l = ground arith

  pub apply_tick_full :
      (tick : Tick F) (b : OrderBook F)
      → find text_eq (key_of tick) b.token_to_idx ≡ none
      → max_tokens ≤ b.next_idx
      → apply_tick tick b ≡ b
  unfolding apply_tick claim
  apply_tick_full tick b e l = ground arith

  -- Every tick keeps the table well formed, whichever branch it takes.
  pub apply_tick-IsValid :
      (tick : Tick F) (b : OrderBook F) → IsValid blank b → IsValid blank (apply_tick tick b)
  apply_tick-IsValid tick b v = elim (Option-cases (find text_eq (key_of tick) b.token_to_idx)) [
    | inl new ↦ elim (dec_le max_tokens b.next_idx) [
      | yes full ↦ rw (apply_tick_full tick b new full) v
      | no room ↦ rw (apply_tick_new tick b new (omega arith)) (
          write_book-IsValid tick b.next_idx (claimed (key_of tick) b)
            (claimed-IsValid (key_of tick) b v new (omega arith)) (omega arith))
    ]
    | inr (i, old) ↦
        rw (apply_tick_known tick b i old) (write_book-IsValid tick i b v (v.known _ i old))
  ]

  -- Any stream of ticks keeps the book valid: at most 4096 slots, one for each token, no
  -- slot shared and the unclaimed ones blank.
  pub apply_ticks-IsValid :
      (ts : List (Tick F)) (b : OrderBook F) → IsValid blank b → IsValid blank (apply_ticks ts b)
  unfolding apply_ticks
  apply_ticks-IsValid [] b v = v
  apply_ticks-IsValid (t ∷ ts) b v =
      apply_ticks-IsValid ts (apply_tick t b) (apply_tick-IsValid t b v)

pub empty_book-IsValid : (num : Double) → IsValid (empty_market num) (empty_book num)
unfolding empty_book find
empty_book-IsValid num = record {
  bounded = omega arith;
  counted = refl;
  known = λ t i e. cc;
  separate = λ t u i e f. cc;
  unused = λ i l. refl;
}
