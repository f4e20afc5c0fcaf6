-- ===== src/Gateway/Client/Watchdog.antt =====
-- What the watchdog does about a silent connection.
use polymarket_tickscope.Base.{
  ℕ, ◌≡◌, refl, ap, ◌∙◌, ◌<◌, ◌+◌, List, [], ◌∷◌, ◌++◌, true, false, ◌&&◌, Bool-cases, inl, inr,
  ltb, lt→ltb,
}
use polymarket_tickscope.Gateway.Client.{Client, stale_timeout_ms, is_stale, watchdog, rounds}

watchdog-idle : (now later : ℕ) (c : Client) → c.connected ≡ false → watchdog now later c ≡ c
unfolding watchdog
watchdog-idle now later c h =
    let calm : is_stale now c ≡ false =
      unfold is_stale in
      ap (λ b. b && (ltb 0 c.last_msg_ms && ltb (c.last_msg_ms + stale_timeout_ms) now)) h in
    rw (calm, watchdog) refl

-- A client that is not connected waits for the next Open.
rounds-idle : (rs : List (ℕ × ℕ)) (c : Client) → c.connected ≡ false → rounds rs c ≡ c
unfolding rounds
rounds-idle [] c h = refl
rounds-idle ((now, later) ∷ rs) c h =
    ap (rounds rs) (watchdog-idle now later c h) ∙ rounds-idle rs c h

abbrev restarted : ℕ → Client → Client
restarted later c = record c { connected = false; last_msg_ms = later; restarts = c.restarts + 1 }

watchdog-stale :
    (now later : ℕ) (c : Client) → is_stale now c ≡ true → watchdog now later c ≡ restarted later c
unfolding watchdog
watchdog-stale now later c h = rw (h, watchdog) refl

-- After the round that restarts the connection the others do nothing.
rounds-stale :
    (now later : ℕ) (rs : List (ℕ × ℕ)) (c : Client)
    → is_stale now c ≡ true
    → rounds ((now, later) ∷ rs) c ≡ restarted later c
unfolding rounds
rounds-stale now later rs c h =
    ap (rounds rs) (watchdog-stale now later c h) ∙ rounds-idle rs (restarted later c) refl

-- A connected client whose last message is known, and more than the timeout ago at one round
-- of the watchdog, has been restarted once and is marked closed after all rounds, whatever
-- rounds come before and after that one.
pub rounds-restarts :
    (before after : List (ℕ × ℕ)) (now later : ℕ) (c : Client)
    → c.connected ≡ true
    → 0 < c.last_msg_ms
    → c.last_msg_ms + stale_timeout_ms < now
    → ((rounds (before ++ ((now, later) ∷ after)) c).restarts ≡ c.restarts + 1)
      × ((rounds (before ++ ((now, later) ∷ after)) c).connected ≡ false)
unfolding rounds watchdog
rounds-restarts [] after now later c h live late =
    let stale : is_stale now c ≡ true =
      unfold is_stale in
      rw (h, lt→ltb 0 c.last_msg_ms live, lt→ltb (c.last_msg_ms + stale_timeout_ms) now late)
        refl in
    let once = rounds-stale now later after c stale in
    (ap (λ (x : Client). x.restarts) once, ap (λ (x : Client). x.connected) once)
rounds-restarts ((t, u) ∷ before) after now later c h live late = elim (Bool-cases (is_stale t c)) [
  | inl e ↦
      let once = rounds-stale t u (before ++ ((now, later) ∷ after)) c e in
      (ap (λ (x : Client). x.restarts) once, ap (λ (x : Client). x.connected) once)
  | inr e ↦ rw (rounds, watchdog, e) (rounds-restarts before after now later c h live late)
]
