-- ===== src/Feedhandler/Work.antt =====
-- What a message makes the I/O thread do, one round of its loop at a time: a thread that runs
-- beside it can act between two rounds. The loop is that of `parse_and_push`.
use polymarket_tickscope.Base.{
  ℕ, ◌≡◌, ◌≢◌, refl, List, [], ◌∷◌, ◌++◌, Option, none, some, Option-cases, inl, inr, ite,
  ite_either,
}
use polymarket_tickscope.Base.Text.{Text, codes, text_eq}
use polymarket_tickscope.Base.Json.{Json}
use polymarket_tickscope.Base.Double.{Double}
use polymarket_tickscope.Core.{Tick}
use polymarket_tickscope.Tickerplant.{TickQueue}
use polymarket_tickscope.Feedhandler.{
  change_tick, trade_tick, event_of, push_tick, push_changes, price_change, parse_and_push,
}

-- A round: a tick to push, none for `continue`, or the throw that ends the program.
pub data Round (F : Type 0) : Type 0 where
  pushes : (tick : Option (Tick F)) → Round F
  throws : Round F

module _ (num : Double) (json : Json num.F) where
  open num use {F}
  open json use {Object, get_uint64_in_string, get_array}

  unfoldable pub rounds_of : ℕ → List (Option Object) → List (Round F)
  rounds_of timestamp_ms [] = []
  rounds_of timestamp_ms (none ∷ changes) = throws ∷ rounds_of timestamp_ms changes
  rounds_of timestamp_ms (some change ∷ changes) =
      pushes (change_tick num json timestamp_ms change) ∷ rounds_of timestamp_ms changes

  unfoldable pub change_rounds : Object → List (Round F)
  change_rounds obj = elim (get_uint64_in_string (codes "timestamp") obj) [
    | none ↦ []
    | some timestamp_ms ↦ elim (get_array (codes "price_changes") obj) [
      | none ↦ []
      | some changes ↦ rounds_of timestamp_ms changes
    ]
  ]

  unfoldable pub work_of : Text → List (Round F)
  work_of message = elim (event_of num json message) [
    | none ↦ []
    | some (event_type, obj) ↦ ite (text_eq event_type (codes "price_change")) (change_rounds obj) (
        ite (text_eq event_type (codes "last_trade_price")) (pushes (trade_tick num json obj) ∷ [])
          [])
  ]

  -- None of these rounds ends the program.
  abbrev pub NoThrow : List (Round F) → Type 0
  NoThrow [] = Unit
  NoThrow (pushes _ ∷ rs) = NoThrow rs
  NoThrow (throws ∷ rs) = ⊥

  pub NoThrow-append : (xs ys : List (Round F)) → NoThrow xs → NoThrow ys → NoThrow (xs ++ ys)
  NoThrow-append [] ys h k = k
  NoThrow-append (pushes _ ∷ xs) ys h k = NoThrow-append xs ys h k
  NoThrow-append (throws ∷ xs) ys h k = absurd h

  module _ (queue : TickQueue F) where
    open queue use {State}

    unfoldable pub work : List (Round F) → State → Option State
    work [] s = some s
    work (pushes tick ∷ rs) s = work rs (push_tick num json queue tick s)
    work (throws ∷ rs) s = none

    rounds_of-work :
        (ts : ℕ) (changes : List (Option Object)) (s : State)
        → push_changes num json queue ts changes s ≡ work (rounds_of ts changes) s
    unfolding push_changes work rounds_of
    rounds_of-work ts [] s = refl
    rounds_of-work ts (none ∷ changes) s = refl
    rounds_of-work ts (some c ∷ changes) s =
        rounds_of-work ts changes (push_tick num json queue (change_tick num json ts c) s)

    change_rounds-work :
        (obj : Object) (s : State) → price_change num json queue obj s ≡ work (change_rounds obj) s
    unfolding price_change work change_rounds
    change_rounds-work obj s = elim (Option-cases (get_uint64_in_string (codes "timestamp") obj)) [
      | inl e ↦ rw (e, price_change, change_rounds) refl
      | inr (ts, e) ↦ elim (Option-cases (get_array (codes "price_changes") obj)) [
        | inl f ↦ rw (e, f, price_change, change_rounds) refl
        | inr (changes, f) ↦ rw (e, f, price_change, change_rounds) (rounds_of-work ts changes s)
      ]
    ]

    pub parse_and_push-work :
        (message : Text) (s : State)
        → parse_and_push num json queue message s ≡ work (work_of message) s
    unfolding parse_and_push work work_of
    parse_and_push-work message s = elim (Option-cases (event_of num json message)) [
      | inl e ↦ rw (e, parse_and_push, work_of) refl
      | inr ((event_type, obj), e) ↦
          rw (e, parse_and_push, work_of)
            (elim (text_eq event_type (codes "price_change"))
              as (λ d.
                ite d (price_change num json queue obj s) (
                  ite (text_eq event_type (codes "last_trade_price"))
                    (some (push_tick num json queue (trade_tick num json obj) s)) (some s))
                ≡ work
                    (ite d (change_rounds obj) (
                      ite (text_eq event_type (codes "last_trade_price"))
                        (pushes (trade_tick num json obj) ∷ []) []))
                    s) [
                      | yes _ ↦ change_rounds-work obj s
                      | no _ ↦
                          elim (text_eq event_type (codes "last_trade_price"))
                            as (λ d.
                              ite d (some (push_tick num json queue (trade_tick num json obj) s))
                                (some s)
                              ≡ work (ite d (pushes (trade_tick num json obj) ∷ []) []) s) [
                                | yes _ ↦ refl
                                | no _ ↦ refl
                              ]
                    ])
    ]

    -- Every element of every array is an object.
    abbrev pub AllObjects : List (Option Object) → Type 0
    AllObjects [] = Unit
    AllObjects (c ∷ cs) = (c ≢ none) × AllObjects cs

    rounds_of-NoThrow :
        (ts : ℕ) (changes : List (Option Object))
        → AllObjects changes
        → NoThrow (rounds_of ts changes)
    unfolding rounds_of
    rounds_of-NoThrow ts [] h = tt
    rounds_of-NoThrow ts (none ∷ changes) h = absurd (h.0 refl)
    rounds_of-NoThrow ts (some c ∷ changes) h = rounds_of-NoThrow ts changes h.1

    change_rounds-NoThrow :
        (obj : Object)
        → ((changes : List (Option Object))
            → get_array (codes "price_changes") obj ≡ some changes
            → AllObjects changes)
        → NoThrow (change_rounds obj)
    unfolding change_rounds
    change_rounds-NoThrow obj h =
        elim (Option-cases (get_uint64_in_string (codes "timestamp") obj)) [
          | inl e ↦ rw (e, change_rounds) tt
          | inr (ts, e) ↦ elim (Option-cases (get_array (codes "price_changes") obj)) [
            | inl f ↦ rw (e, f, change_rounds) tt
            | inr (changes, f) ↦
                rw (e, f, change_rounds) (rounds_of-NoThrow ts changes (h changes f))
          ]
        ]

    pub work_of-NoThrow :
        (message : Text)
        → ((obj : Object) (changes : List (Option Object))
            → get_array (codes "price_changes") obj ≡ some changes
            → AllObjects changes)
        → NoThrow (work_of message)
    unfolding work_of
    work_of-NoThrow message h = elim (Option-cases (event_of num json message)) [
      | inl e ↦ rw (e, work_of) tt
      | inr ((event_type, obj), e) ↦
          rw (e, work_of)
            (ite_either NoThrow (text_eq event_type (codes "price_change"))
              (change_rounds-NoThrow obj (h obj))
              (ite_either NoThrow (text_eq event_type (codes "last_trade_price")) tt tt))
    ]
