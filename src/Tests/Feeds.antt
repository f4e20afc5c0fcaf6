-- ===== src/Tests/Feeds.antt =====
-- The feeds and the BTC journal at concrete inputs.
use polymarket_tickscope.Base.{
  ℕ, ◌≡◌, ◌≢◌, ◌<◌, refl, subst, List, [], ◌∷◌, map, All, Bool, true, false, Option, none, some,
  ite, arith,
}
use polymarket_tickscope.Base.Text.{Text, codes, text_eq}
use polymarket_tickscope.Base.Json.{Json, object}
use polymarket_tickscope.Core.{BtcTick}
use polymarket_tickscope.Coinbase.Journal.{
  Setup, new_journal, flush_full, rotate_if_needed, write, write_all, close, rotation_ms,
}
use polymarket_tickscope.Coinbase.Journal.Conserved.{InBounds, close-write_all, write-InBounds}
use polymarket_tickscope.Coinbase.Journal.Segments.{Filed, write_all-Filed}
use polymarket_tickscope.Coinbase.Session.{
  Connection, opened, arrived, stopped, main, fifteen_minutes,
}
use polymarket_tickscope.Coinbase.Session.Recorded.{
  ticks_of, last_mid, subscriptions, main-Recorded,
}
use polymarket_tickscope.Ring.Refine.{init-Holds}
use polymarket_tickscope.Feedhandler.{parse_and_push}
use polymarket_tickscope.Feedhandler.Ticks.{AppendsIf, parse_and_push-Appends}
use polymarket_tickscope.Feedhandler.Work.{AllObjects}
use polymarket_tickscope.Feedhandler.Sent.{Change, changes_at, IsTextOf, offer, parse_and_push-sent}
use polymarket_tickscope.Feedhandler.Sent
use polymarket_tickscope.Tests.Fixed.{ℤ, pos, fixed}
use polymarket_tickscope.Tests.Pipeline.{four, queue, empty_ring, tick_of}

abbrev btc : ℕ → BtcTick ℤ
btc time = record { timestamp = time; bid = pos 2; ask = pos 4; mid = pos 3 }

abbrev setup : Setup
setup = record {
  data_dir = codes "data";
  rotation_minutes = 15;
  period = fifteen_minutes;
  file_name = λ time. time ∷ [];
}

abbrev writes : List (Bool × BtcTick ℤ)
writes = (true, btc 5) ∷ (true, btc 6) ∷ (true, btc 900000) ∷ []

close-write_all_example :
    map (λ (h : Option Text × BtcTick ℤ). h.1) (close (write_all setup writes new_journal)).history
    ≡ map (λ (t : Bool × BtcTick ℤ). t.1) writes
close-write_all_example = close-write_all setup writes

write-InBounds_example :
    InBounds {F = ℤ} (flush_full (rotate_if_needed setup true 5 new_journal))
    × InBounds (write setup true (btc 5) new_journal)
write-InBounds_example = write-InBounds setup true (btc 5) new_journal

in_minutes : 0 < rotation_ms setup
unfolding rotation_ms
in_minutes = omega arith

write_all-Filed_example :
    All (Filed setup in_minutes) (close (write_all setup writes new_journal)).history
write_all-Filed_example =
    write_all-Filed setup in_minutes writes
      (refl, omega arith, (refl, omega arith, (refl, omega arith, tt)))

-- A message with every field: of a ticker, and of a price change with one element.
abbrev pub message : Json ℤ
message = record {
  Document = ℕ;
  Object = ℕ;
  iterate = λ _. some 0;
  type = λ _. some object;
  doc_object = λ doc. some doc;
  doc_array = λ _. none;
  doc_strings = λ _. none;
  get_bool = λ _ _. none;
  get_double = λ _ _. none;
  get_string = λ key _.
      ite (text_eq key (codes "type")) (some (codes "ticker"))
        (ite (text_eq key (codes "event_type")) (some (codes "price_change")) (some (codes "BUY")));
  get_uint64_in_string = λ _ _. some 5;
  get_double_in_string = λ _ _. some (pos 7);
  get_array = λ _ _. some (some 1 ∷ []);
}

parse_and_push-Appends_example :
    AppendsIf fixed message queue [] (parse_and_push fixed message queue (codes "x") empty_ring)
parse_and_push-Appends_example =
    parse_and_push-Appends fixed message queue (codes "x") [] empty_ring
      (0, init-Holds 4 four (tick_of 0 0))

abbrev changes : List (Option ℕ)
changes = some 1 ∷ []

pub all_objects :
    (cs : List (Option ℕ)) → some changes ≡ some cs → AllObjects fixed message queue cs
all_objects cs e = subst (AllObjects fixed message queue) (changes_of cs e) (present, tt)
  where
    changes_of : (cs : List (Option ℕ)) → some changes ≡ some cs → changes ≡ cs
    changes_of cs e = ground arith

    present : ◌≢◌ {A = Option ℕ} (some 1) none
    present = ground arith

-- The same with another number under each key, and a sale.
abbrev sheet : Json ℤ
sheet = record message {
  get_string = λ key _.
      ite (text_eq key (codes "event_type")) (some (codes "price_change"))
        (ite (text_eq key (codes "asset_id")) (some (codes "token")) (some (codes "SELL")));
  get_double_in_string = λ key _. ite (text_eq key (codes "price")) (some (pos 1)) (
      ite (text_eq key (codes "size")) (some (pos 2))
        (ite (text_eq key (codes "best_bid")) (some (pos 3)) (some (pos 4))));
}

abbrev sale : Change ℤ
sale = record {
  said = record { asset_id = codes "token"; price = pos 1; size = pos 2; is_buy = false };
  best_bid = pos 3;
  best_ask = pos 4;
}

sheet-IsTextOf : IsTextOf fixed sheet (codes "x") (changes_at 5 (sale ∷ []))
unfolding text_eq
sheet-IsTextOf = (
  record {
    doc = 0;
    obj = 0;
    parsed = refl;
    is_object = refl;
    opened = refl;
    named = refl;
    timed = refl;
  },
  some 1 ∷ [],
  refl,
  (
    record {
      says = record { asset_id = refl; price = refl; size = refl; side = refl; fits = omega arith };
      best_bid = refl;
      best_ask = refl;
    },
    tt,
  ),
)

parse_and_push-sent_example :
    parse_and_push fixed sheet queue (codes "x") empty_ring
    ≡ some (offer queue (Sent.ticks_of fixed (changes_at 5 (sale ∷ []))) empty_ring)
parse_and_push-sent_example =
    parse_and_push-sent fixed sheet queue (codes "x") (changes_at 5 (sale ∷ [])) empty_ring
      sheet-IsTextOf

main-Recorded_example :
    (c : Connection ℤ) × (main fixed message [] none
        (λ time. time ∷ [])
        ((opened ∷ []) ∷ (arrived true 5 (codes "x") ∷ stopped ∷ []) ∷ (opened ∷ []) ∷ [])
      ≡ some c)
    × (map (λ (h : Option Text × BtcTick ℤ). h.1) c.feed.journal.history
        ≡ map
            (λ (t : Bool × BtcTick ℤ). t.1)
            (ticks_of fixed message (opened ∷ arrived true 5 (codes "x") ∷ stopped ∷ [])))
    × (c.feed.mid
        ≡ last_mid fixed message
            (ticks_of fixed message (opened ∷ arrived true 5 (codes "x") ∷ stopped ∷ []))
            (pos 0))
    × (c.sent ≡ subscriptions (opened ∷ arrived true 5 (codes "x") ∷ stopped ∷ []))
main-Recorded_example =
    main-Recorded fixed message [] none (λ time. time ∷ []) ((opened ∷ []) ∷ [])
      (arrived true 5 (codes "x") ∷ stopped ∷ []) ((opened ∷ []) ∷ []) (refl, tt) refl
