-- ===== src/Harvester/Life/Ends.antt =====
-- How the process ends after a signal.
use polymarket_tickscope.Base.{
  ℕ, suc, ◌+◌, ◌≤◌, ◌≡◌, refl, ap, ◌∙◌, subst, List, [], ◌∷◌, ◌++◌, true, false, arith, if_either,
}
use polymarket_tickscope.Harvester.Life.{
  Pc, constructed, registered, started, joining, stopping, finished, Life, begun, sighandler,
  advance, check, Event, signal, main_step, check_step, step, run,
}

-- The steps of `main` among these.
unfoldable pub main_steps : List Event → ℕ
main_steps [] = 0
main_steps (main_step ∷ es) = suc (main_steps es)
main_steps (signal ∷ es) = main_steps es
main_steps (check_step ∷ es) = main_steps es

-- How many more steps `main` takes once nothing holds it up.
unfoldable left : Pc → ℕ
left constructed = 5
left registered = 4
left started = 3
left joining = 2
left stopping = 1
left finished = 0

-- The rediscovery thread has been started, and both flags are down.
abbrev Past : Pc → Type 0
Past constructed = ⊥
Past registered = ⊥
Past started = Unit
Past joining = Unit
Past stopping = Unit
Past finished = Unit

record Stopping (l : Life) : Type 0 where
  past : Past l.pc
  wsc_down : l.wsc_running ≡ false
  rediscover_down : l.rediscover_running ≡ false

advance-Stopping : (p : Pc) (l : Life) → l.pc ≡ p → Stopping l → Stopping (advance p l)
unfolding advance
advance-Stopping constructed l e s = absurd (subst Past e s.past)
advance-Stopping registered l e s = absurd (subst Past e s.past)
advance-Stopping started l e s =
    if_either Stopping l.wsc_running (λ _. s)
      (λ _. record { past = tt; wsc_down = s.wsc_down; rediscover_down = s.rediscover_down })
advance-Stopping joining l e s =
    if_either Stopping l.rediscovering (λ _. s)
      (λ _. record { past = tt; wsc_down = s.wsc_down; rediscover_down = s.rediscover_down })
advance-Stopping stopping l e s = record {
  past = tt;
  wsc_down = s.wsc_down;
  rediscover_down = s.rediscover_down;
}
advance-Stopping finished l e s = s

step-Stopping : (e : Event) (l : Life) → Stopping l → Stopping (step e l)
unfolding step sighandler check
step-Stopping signal l s = record {
  past = s.past;
  wsc_down = if_either (λ b. b ≡ false) l.has_wsc (λ _. refl) (λ _. s.wsc_down);
  rediscover_down = refl;
}
step-Stopping main_step l s = advance-Stopping l.pc l refl s
step-Stopping check_step l s =
    if_either Stopping l.rediscover_running (λ _. s)
      (λ _. record { past = s.past; wsc_down = s.wsc_down; rediscover_down = s.rediscover_down })

run-Stopping : (es : List Event) (l : Life) → Stopping l → Stopping (run es l)
unfolding run
run-Stopping [] l s = s
run-Stopping (e ∷ es) l s = run-Stopping es (step e l) (step-Stopping e l s)

-- At most so many steps of `main` are left.
abbrev Within : ℕ → Life → Type 0
Within n l = (l.rediscovering ≡ false) × (left l.pc ≤ n)

-- Once the rediscovery thread has ended, each step of `main` goes on.
advance-Within :
    (n : ℕ) (p : Pc) (l : Life) → l.pc ≡ p → Stopping l → Within (suc n) l → Within n (advance p l)
unfolding advance left
advance-Within n constructed l e s w = absurd (subst Past e s.past)
advance-Within n registered l e s w = absurd (subst Past e s.past)
advance-Within n started l e s w =
    let most : left started ≤ suc n = subst (λ p. left p ≤ suc n) e w.1 in
    if_either (Within n) l.wsc_running (λ up. absurd (let down = s.wsc_down in cc (up, down)))
      (λ _. (w.0, omega arith))
advance-Within n joining l e s w =
    let most : left joining ≤ suc n = subst (λ p. left p ≤ suc n) e w.1 in
    if_either (Within n) l.rediscovering (λ up. absurd (let down = w.0 in cc (up, down)))
      (λ _. (w.0, omega arith))
advance-Within n stopping l e s w = (w.0, omega arith)
advance-Within n finished l e s w = (w.0, rw e (omega arith))

run-Within :
    (es : List Event) (n : ℕ) (l : Life)
    → Stopping l
    → Within (n + main_steps es) l
    → Within n (run es l)
unfolding run step main_steps sighandler check
run-Within [] n l s w = subst (λ k. Within k l) (omega arith) w
run-Within (signal ∷ es) n l s w = run-Within es n (sighandler l) (step-Stopping signal l s) w
run-Within (check_step ∷ es) n l s w =
    run-Within es n (check l) (step-Stopping check_step l s)
      (if_either (Within (n + main_steps es)) l.rediscover_running (λ _. w) (λ _. (refl, w.1)))
run-Within (main_step ∷ es) n l s w =
    run-Within es n (advance l.pc l) (step-Stopping main_step l s)
      (advance-Within (n + main_steps es) l.pc l refl s (subst (λ k. Within k l) (omega arith) w))

left-finished : (p : Pc) → left p ≤ 0 → p ≡ finished
unfolding left
left-finished finished h = refl
left-finished constructed h = absurd (omega arith)
left-finished registered h = absurd (omega arith)
left-finished started h = absurd (omega arith)
left-finished joining h = absurd (omega arith)
left-finished stopping h = absurd (omega arith)

run-append : (xs ys : List Event) (l : Life) → run (xs ++ ys) l ≡ run ys (run xs l)
unfolding run
run-append [] ys l = refl
run-append (x ∷ xs) ys l = run-append xs ys (step x l)

left-Past : (p : Pc) → Past p → left p ≤ 3
unfolding left
left-Past constructed h = absurd h
left-Past registered h = absurd h
left-Past started h = omega arith
left-Past joining h = omega arith
left-Past stopping h = omega arith
left-Past finished h = omega arith

-- No signal among these.
abbrev pub Calm : List Event → Type 0
Calm [] = Unit
Calm (signal ∷ es) = ⊥
Calm (main_step ∷ es) = Calm es
Calm (check_step ∷ es) = Calm es

-- Everything runs, and `main` waits for the client.
abbrev pub up : Life
up = record {
  pc = started;
  has_wsc = true;
  wsc_running = true;
  rediscover_running = true;
  rediscovering = true;
  plant_running = true;
}

run-Calm : (es : List Event) → Calm es → run es up ≡ up
unfolding run step advance check
run-Calm [] c = refl
run-Calm (signal ∷ es) c = absurd c
run-Calm (main_step ∷ es) c = run-Calm es c
run-Calm (check_step ∷ es) c = run-Calm es c

check-ended : (l : Life) → Stopping l → (check l).rediscovering ≡ false
unfolding check
check-ended l s =
    if_either (λ (x : Life). x.rediscovering ≡ false) l.rediscover_running
      (λ up. absurd (let down = s.rediscover_down in cc (up, down))) (λ _. refl)

-- Once main has registered the handler and started the rediscovery thread, a signal ends the
-- process whatever steps come before and after it: when that thread has looked at its flag and
-- main has taken three more steps, main has finished.
pub run-finished :
    (calm before after : List Event)
    → Calm calm
    → 3 ≤ main_steps after
    → (run (main_step ∷ main_step ∷ (calm ++ (signal ∷ (before ++ (check_step ∷ after))))) begun).pc
      ≡ finished
unfolding run step sighandler advance
run-finished calm before after c enough =
    let signalled : Stopping (sighandler up) = record {
      past = tt;
      wsc_down = refl;
      rediscover_down = refl;
    } in
    let l : Life = run before (sighandler up) in
    let stopping_l : Stopping l = run-Stopping before (sighandler up) signalled in
    let checked : Stopping (check l) = step-Stopping check_step l stopping_l in
    let ends : Within 0 (run after (check l)) =
      run-Within after 0 (check l) checked
        (check-ended l stopping_l, omega (arith, left-Past (check l).pc checked.past, enough)) in
    ap (λ (x : Life). x.pc)
      (run-append calm (signal ∷ (before ++ (check_step ∷ after))) up
        ∙ ap (λ (x : Life). run (signal ∷ (before ++ (check_step ∷ after))) x) (run-Calm calm c)
        ∙ run-append before (check_step ∷ after) (sighandler up))
    ∙ left-finished (run after (check l)).pc ends.1
