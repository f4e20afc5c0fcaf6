-- ===== src/Gateway/Client/Replay.antt =====
-- What each connection subscribes to.
use polymarket_tickscope.Base.{
  ℕ, ◌≡◌, refl, ap, subst, ◌∙◌, List, [], ◌∷◌, ◌++◌, append_assoc, append-nil, Bool-cases, inl, inr,
  if_either, Option, none, some, Option-cases, ltb, length,
}
use polymarket_tickscope.Base.Text.{Text}
use polymarket_tickscope.Base.Json.{Json}
use polymarket_tickscope.Base.Double.{Double}
use polymarket_tickscope.Tickerplant.{TickQueue}
use polymarket_tickscope.Feedhandler.{parse_and_push}
use polymarket_tickscope.Gateway.Subscription.{build_subscription_json, extend}
use polymarket_tickscope.Gateway.Subscription.Extend.{extend-build_subscription_json}
use polymarket_tickscope.Gateway.Client.{
  Client, max_payload_bytes, new_client, send_full, mark_open, on_open, on_close, stop, extend_full,
  send_new, subscribe, on_message, Event, sent_full, marked, closed, arrived, extended, sent_new,
  dropped, restarted, stopped, step, run,
}

-- The tokens that `subscribe` was given, in order.
unfoldable pub event_tokens : Event → List Text
event_tokens (extended tokens) = tokens
event_tokens (sent_new _) = []
event_tokens sent_full = []
event_tokens (marked _) = []
event_tokens closed = []
event_tokens (arrived _ _) = []
event_tokens dropped = []
event_tokens (restarted _) = []
event_tokens stopped = []

unfoldable pub tokens_of : List Event → List Text
tokens_of [] = []
tokens_of (e ∷ es) = event_tokens e ++ tokens_of es

-- The full message is that of all the tokens.
abbrev pub Covers : List Text → Client → Type 0
Covers tokens c = c.full_subscription_json ≡ build_subscription_json tokens

pub new_client-Covers : (tokens : List Text) → Covers tokens (new_client tokens)
unfolding new_client
new_client-Covers tokens = refl

extend_full-Covers :
    (new_tokens tokens : List Text) (c : Client)
    → Covers tokens c
    → Covers (tokens ++ new_tokens) (extend_full new_tokens c)
unfolding extend_full
extend_full-Covers [] tokens c h = rw append-nil h
extend_full-Covers (t ∷ ts) tokens c h =
    ap (extend (t ∷ ts)) h ∙ extend-build_subscription_json tokens (t ∷ ts)

send_new-Covers :
    (new_tokens tokens : List Text) (c : Client)
    → Covers tokens c
    → Covers tokens (send_new new_tokens c)
unfolding send_new
send_new-Covers [] tokens c h = h
send_new-Covers (t ∷ ts) tokens c h = if_either (Covers tokens) c.connected (λ _. h) (λ _. h)

pub subscribe-Covers :
    (new_tokens tokens : List Text) (c : Client)
    → Covers tokens c
    → Covers (tokens ++ new_tokens) (subscribe new_tokens c)
unfolding subscribe
subscribe-Covers new_tokens tokens c h =
    send_new-Covers new_tokens (tokens ++ new_tokens) (extend_full new_tokens c)
      (extend_full-Covers new_tokens tokens c h)

module _ (num : Double) (json : Json num.F) (queue : TickQueue num.F) where
  open queue use {State}

  abbrev pub CoversIf : List Text → Option (Client × State) → Type 0
  CoversIf tokens none = Unit
  CoversIf tokens (some now) = Covers tokens now.0

  on_message-Covers :
      (now : ℕ) (payload : Text) (tokens : List Text) (c : Client) (s : State)
      → Covers tokens c
      → CoversIf tokens (on_message num json queue now payload c s)
  unfolding on_message
  on_message-Covers now payload tokens c s h =
      elim (Bool-cases (ltb max_payload_bytes (length payload))) [
        | inl b ↦ rw (b, CoversIf, on_message) h
        | inr b ↦ elim (Option-cases (parse_and_push num json queue payload s)) [
          | inl e ↦ rw (b, e, CoversIf, on_message) tt
          | inr (s', e) ↦ rw (b, e, CoversIf, on_message) h
        ]
      ]

  -- The tokens after one more event.
  step-Covers :
      (e : Event) (tokens : List Text) (now : Client × State)
      → Covers tokens now.0
      → CoversIf (tokens ++ event_tokens e) (step num json queue e now)
  unfolding step event_tokens send_full mark_open on_close stop
  step-Covers sent_full tokens (c, s) h = rw append-nil h
  step-Covers (marked t) tokens (c, s) h = rw append-nil h
  step-Covers closed tokens (c, s) h = rw append-nil h
  step-Covers (arrived t payload) tokens (c, s) h =
      rw append-nil (on_message-Covers t payload tokens c s h)
  step-Covers (extended ts) tokens (c, s) h = extend_full-Covers ts tokens c h
  step-Covers (sent_new ts) tokens (c, s) h = rw append-nil (send_new-Covers ts tokens c h)
  step-Covers dropped tokens (c, s) h = rw append-nil h
  step-Covers (restarted t) tokens (c, s) h = rw append-nil h
  step-Covers stopped tokens (c, s) h = rw append-nil h

  run-Covers :
      (es : List Event) (tokens : List Text) (now : Client × State)
      → Covers tokens now.0
      → CoversIf (tokens ++ tokens_of es) (run num json queue es now)
  unfolding run tokens_of
  run-Covers [] tokens now h = rw append-nil h
  run-Covers (e ∷ es) tokens now h =
      rw (← append_assoc) (elim (Option-cases (step num json queue e now)) [
        | inl f ↦ rw (f, CoversIf, run) tt
        | inr (next, f) ↦
            rw (f, run)
              (run-Covers es (tokens ++ event_tokens e) next
                (subst (CoversIf (tokens ++ event_tokens e)) f (step-Covers e tokens now h)))
      ])

  -- Whatever steps the threads took since the construction, in any order, where they return,
  -- the next Open sends after the other messages one that subscribes to the tokens of the
  -- construction and to all that were added since, in order.
  pub on_open-run :
      (es : List Event) (tokens : List Text) (t : ℕ) (s s' : State) (c : Client)
      → run num json queue es (new_client tokens, s) ≡ some (c, s')
      → (on_open t c).sent ≡ c.sent ++ build_subscription_json (tokens ++ tokens_of es) ∷ []
  unfolding on_open send_full mark_open
  on_open-run es tokens t s s' c h =
      let covers : Covers (tokens ++ tokens_of es) c =
        subst (CoversIf (tokens ++ tokens_of es)) h
          (run-Covers es tokens (new_client tokens, s) (new_client-Covers tokens)) in
      ap (λ (x : Text). c.sent ++ x ∷ []) covers
