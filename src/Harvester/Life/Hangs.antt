-- ===== src/Harvester/Life/Hangs.antt =====
-- A signal that comes before the rediscovery thread is started.
use polymarket_tickscope.Base.{◌≡◌, ◌≢◌, refl, subst, List, [], ◌∷◌, true, false, if_either}
use polymarket_tickscope.Harvester.Life.{
  Pc, constructed, registered, started, joining, stopping, finished, Life, begun, sighandler,
  advance, check, Event, signal, main_step, check_step, step, run,
}
use polymarket_tickscope.Harvester.Life.Ends.{Calm, up}

abbrev Blocked : Pc → Type 0
Blocked started = Unit
Blocked joining = Unit
Blocked constructed = ⊥
Blocked registered = ⊥
Blocked stopping = ⊥
Blocked finished = ⊥

-- `main` waits for a thread that nothing tells to end.
record Waits (l : Life) : Type 0 where
  held : Blocked l.pc
  flag_up : l.rediscover_running ≡ true
  alive : l.rediscovering ≡ true

advance-Waits : (p : Pc) (l : Life) → l.pc ≡ p → Waits l → Waits (advance p l)
unfolding advance
advance-Waits started l e w =
    if_either Waits l.wsc_running (λ _. w)
      (λ _. record { held = tt; flag_up = w.flag_up; alive = w.alive })
advance-Waits joining l e w =
    if_either Waits l.rediscovering (λ _. w)
      (λ over. absurd (let living = w.alive in cc (over, living)))
advance-Waits constructed l e w = absurd (subst Blocked e w.held)
advance-Waits registered l e w = absurd (subst Blocked e w.held)
advance-Waits stopping l e w = absurd (subst Blocked e w.held)
advance-Waits finished l e w = w

run-Waits : (es : List Event) (l : Life) → Calm es → Waits l → Waits (run es l)
unfolding run step check
run-Waits [] l c w = w
run-Waits (signal ∷ es) l c w = absurd c
run-Waits (main_step ∷ es) l c w = run-Waits es (advance l.pc l) c (advance-Waits l.pc l refl w)
run-Waits (check_step ∷ es) l c w = run-Waits es (check l) c (
    if_either Waits l.rediscover_running (λ _. w)
      (λ down. absurd (let flag = w.flag_up in cc (down, flag))))

-- A signal between the registration of the handler and the start of the rediscovery thread
-- does not end the process: without a further signal main never finishes.
pub early_signal :
    (es : List Event) → Calm es → (run (main_step ∷ signal ∷ main_step ∷ es) begun).pc ≢ finished
unfolding run step sighandler advance
early_signal es c e =
    let l : Life = record up { wsc_running = false } in
    let w : Waits l = record { held = tt; flag_up = refl; alive = refl } in
    subst Blocked e (run-Waits es l c w).held
