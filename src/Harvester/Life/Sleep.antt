-- ===== src/Harvester/Life/Sleep.antt =====
-- How long the rediscovery thread sleeps between two cycles.
use polymarket_tickscope.Base.{
  ℕ, zero, suc, ◌+◌, ◌*◌, ◌≡◌, refl, ◌∙◌, List, ◌∷◌, Bool, true, false, ◌&&◌, arith, min, ltb,
  if_true, if_false,
}
use polymarket_tickscope.Harvester.Life.{chunk_seconds, sleep_from, sleep}

-- The flag is up at so many checks, and then down.
abbrev pub up_for : ℕ → List Bool → List Bool
up_for zero rest = false ∷ rest
up_for (suc n) rest = true ∷ up_for n rest

not_over : (k slept total : ℕ) → slept + 30 * suc k ≡ total → ltb slept total && true ≡ true
not_over k slept total e = ground arith

over : (slept total : ℕ) → slept + 30 * 0 ≡ total → ltb slept total && true ≡ false
over slept total e = ground arith

down : (b : Bool) → b && false ≡ false
down true = refl
down false = refl

sleep_from_lem :
    (n k total slept : ℕ) (rest : List Bool)
    → slept + 30 * k ≡ total
    → sleep_from total (up_for n rest) slept ≡ slept + 30 * min n k
unfolding sleep_from chunk_seconds
sleep_from_lem zero k total slept rest e = if_false (down (ltb slept total)) _ ∙ omega arith
sleep_from_lem (suc n) zero total slept rest e = if_false (over slept total e) _ ∙ omega arith
sleep_from_lem (suc n) (suc k) total slept rest e =
    if_true (not_over k slept total e) _
    ∙ sleep_from_lem n k total (slept + 30) rest (omega arith)
    ∙ omega arith

-- Between two cycles the rediscovery thread sleeps 30 seconds for each check at which its flag
-- is up, and at most the interval.
pub sleep_lem :
    (interval_mins n : ℕ) (rest : List Bool)
    → sleep interval_mins (up_for n rest) ≡ 30 * min n (2 * interval_mins)
unfolding sleep
sleep_lem interval_mins n rest =
    sleep_from_lem n (2 * interval_mins) (interval_mins * 60) 0 rest (omega arith) ∙ omega arith
