-- ===== src/Bot/Discovery/Sequential.antt =====
-- The parallel scan against its description: the pages one after the other, up to the first short one.
use Prim.Native.Nat.add
use polymarket_tickscope.Base.{
  ℕ, zero, suc, ◌+◌, ◌-◌, ◌*◌, ◌≤◌, ◌<◌, min, ◌≡◌, refl, sym, ap, ap₂, ◌∙◌, inl, inr, [], true,
  false, Bool-cases, some, arith, dec_lt, not, ◌&&◌, ltb, leb, lt→ltb, if_true, if_false,
  if◌then◌else◌,
}
use polymarket_tickscope.Base.Text.{Text}
use polymarket_tickscope.Base.Json.{Json}
use polymarket_tickscope.Bot.Books.{MarketBook, BookState}
use polymarket_tickscope.Bot.Discovery.{Calendar}
use polymarket_tickscope.Bot.Discovery.Pages.{Get, page_size}
use polymarket_tickscope.Bot.Discovery.Scan.{
  Scan, max_pages, n_scan_workers, merge_result, merge_results, worker, batch, batch_size,
  scan_from, scan_all,
}

-- The size of the batch that starts at page `p`.
abbrev workers : ℕ → ℕ
workers p = min n_scan_workers (max_pages - p)

batch_size_lem : (p : ℕ) → batch_size (p * page_size) ≡ workers p
unfolding batch_size page_size max_pages n_scan_workers
batch_size_lem p = omega arith

some_workers : (p : ℕ) → p < max_pages → leb (batch_size (p * page_size)) 0 ≡ false
unfolding max_pages n_scan_workers
some_workers p lt = ap (λ n. leb n 0) (batch_size_lem p) ∙ ground arith

next_offset :
    (p : ℕ) → p * page_size + batch_size (p * page_size) * page_size ≡ (p + workers p) * page_size
unfolding page_size
next_offset p = ap (λ n. p * page_size + n * page_size) (batch_size_lem p) ∙ omega arith

start_of : (p : ℕ) → (p + workers p) * page_size ≡ p * page_size + workers p * page_size
unfolding page_size
start_of p = omega arith

split : (p : ℕ) → p < max_pages → workers p + (max_pages - (p + workers p)) ≡ max_pages - p
unfolding max_pages n_scan_workers
split p lt = omega arith

further : (fuel p : ℕ) → p < max_pages → max_pages ≤ p + suc fuel → max_pages ≤ p + workers p + fuel
unfolding max_pages n_scan_workers
further fuel p lt enough = omega arith

beyond : (p : ℕ) → max_pages ≤ p → ltb (p * page_size) (max_pages * page_size) ≡ false
unfolding max_pages page_size
beyond p end = ground arith

none_left : (p : ℕ) → max_pages ≤ p → 0 ≡ max_pages - p
none_left p end = omega arith

same_offset : (offset : ℕ) → offset ≡ offset + 0 * page_size
same_offset offset = omega arith

module _ {F : Type 0} (blank : MarketBook F) (json : Json F) (calendar : Calendar) (filter : Text)
    (get : ℕ → Get) (clock : ℕ → ℕ → ℕ) where
  abbrev merge_page : ℕ → Scan F → Scan F
  merge_page offset s = merge_result blank (worker blank json calendar filter get clock offset) s

  -- So many pages from an offset on, one at a time, up to the last.
  unfoldable pub in_order : ℕ → ℕ → Scan F → Scan F
  in_order zero offset s = s
  in_order (suc n) offset s =
      let rest = in_order n (offset + page_size) (merge_page offset s) in
      if (merge_page offset s).done then merge_page offset s else rest

  batch-in_order :
      (n offset : ℕ) (s : Scan F)
      → merge_results blank (batch blank json calendar filter get clock n offset) s
        ≡ in_order n offset s
  unfolding merge_results batch in_order
  batch-in_order zero offset s = refl
  batch-in_order (suc n) offset s =
      ap (λ rest. if (merge_page offset s).done then merge_page offset s else rest)
        (batch-in_order n (offset + page_size) (merge_page offset s))

  -- Pages after the last one are not read.
  in_order-stop :
      (n k offset : ℕ) (s : Scan F)
      → s.done ≡ false
      → (in_order n offset s).done ≡ true
      → in_order (n + k) offset s ≡ in_order n offset s
  unfolding in_order
  in_order-stop zero k offset s h e = absurd (cc (h, e))
  in_order-stop (suc n) k offset s h e = rw add.suc (elim (Bool-cases (merge_page offset s).done) [
    | inl d ↦ if_true d _ ∙ sym (if_true d _)
    | inr d ↦
        if_false d _
        ∙ (in_order-stop n k (offset + page_size) (merge_page offset s) d
              (sym (ap (λ (x : Scan F). x.done) (if_false d _)) ∙ e)
            ∙ sym (if_false d _))
  ])

  -- Two runs of pages are one.
  in_order-go :
      (n k offset : ℕ) (s : Scan F)
      → (in_order n offset s).done ≡ false
      → in_order (n + k) offset s ≡ in_order k (offset + n * page_size) (in_order n offset s)
  unfolding in_order
  in_order-go zero k offset s e = ap₂ (λ n o. in_order n o s) (add.zero k) (same_offset offset)
  in_order-go (suc n) k offset s e = rw add.suc (elim (Bool-cases (merge_page offset s).done) [
    | inl d ↦ absurd (cc (sym (ap (λ (x : Scan F). x.done) (if_true d _)) ∙ e, d))
    | inr d ↦
        if_false d _
        ∙ (in_order-go n k (offset + page_size) (merge_page offset s)
              (sym (ap (λ (x : Scan F). x.done) (if_false d _)) ∙ e)
            ∙ ap₂ (in_order k) (omega arith) (sym (if_false d _)))
  ])

  scan_from-done :
      (fuel offset : ℕ) (s : Scan F)
      → s.done ≡ true
      → scan_from blank json calendar filter get clock (suc fuel) offset s ≡ some s
  unfolding scan_from
  scan_from-done fuel offset s d =
      if_false (ap (λ b. not b && ltb offset (max_pages * page_size)) d) _

  running :
      (p : ℕ) (s : Scan F)
      → s.done ≡ false
      → p < max_pages
      → (not s.done && ltb (p * page_size) (max_pages * page_size)) ≡ true
  unfolding page_size max_pages
  running p s h lt = ap (λ b. not b && ltb (p * 200) 5000) h ∙ lt→ltb (p * 200) 5000 (omega arith)

  over :
      (fuel p : ℕ) (s : Scan F)
      → s.done ≡ false
      → max_pages ≤ p
      → scan_from blank json calendar filter get clock (suc fuel) (p * page_size) s
        ≡ some (in_order (max_pages - p) (p * page_size) s)
  unfolding scan_from in_order
  over fuel p s h end =
      if_false (ap (λ b. not b && ltb (p * page_size) (max_pages * page_size)) h ∙ beyond p end) _
      ∙ ap (λ n. some (in_order n (p * page_size) s)) (none_left p end)

  -- A round that is not the last reads its batch in order.
  scan_from-round :
      (fuel p : ℕ) (s : Scan F)
      → s.done ≡ false
      → p < max_pages
      → scan_from blank json calendar filter get clock (suc fuel) (p * page_size) s
        ≡ scan_from blank json calendar filter get clock fuel
            ((p + workers p) * page_size)
            (in_order (workers p) (p * page_size) s)
  unfolding scan_from
  scan_from-round fuel p s h lt =
      if_true (running p s h lt) _
      ∙ (if_false (some_workers p lt) _
          ∙ ap₂ (scan_from blank json calendar filter get clock fuel) (next_offset p) (
              ap
                (λ n.
                  merge_results blank (batch blank json calendar filter get clock n (p * page_size))
                    s)
                (batch_size_lem p)
              ∙ batch-in_order (workers p) (p * page_size) s))

  -- From page `p` on, with a round for each page that is left and one more.
  scan_from-in_order :
      (fuel p : ℕ) (s : Scan F)
      → s.done ≡ false
      → max_pages ≤ p + fuel
      → scan_from blank json calendar filter get clock (suc fuel) (p * page_size) s
        ≡ some (in_order (max_pages - p) (p * page_size) s)
  scan_from-in_order zero p s h enough = over zero p s h (omega (arith, enough))
  scan_from-in_order (suc fuel) p s h enough = elim (dec_lt p max_pages) [
    | no end ↦ over (suc fuel) p s h (omega (arith, end))
    | yes lt ↦
        let t = in_order (workers p) (p * page_size) s in
        let left = max_pages - (p + workers p) in
        let all = ap (λ n. some (in_order n (p * page_size) s)) (split p lt) in
        scan_from-round (suc fuel) p s h lt ∙ elim (Bool-cases t.done) [
          | inl d ↦
              scan_from-done fuel ((p + workers p) * page_size) t d
              ∙ (ap some (sym (in_order-stop (workers p) left (p * page_size) s h d)) ∙ all)
          | inr d ↦
              scan_from-in_order fuel (p + workers p) t d (further fuel p lt enough)
              ∙ (ap (λ o. some (in_order left o t)) (start_of p)
                  ∙ (ap some (sym (in_order-go (workers p) left (p * page_size) s d)) ∙ all))
        ]
  ]

  -- The scan in parallel batches returns, and what it has found, its last offset and whether
  -- it met the last page are those of reading at most 25 pages one after the other, merging
  -- each, up to the first short one.
  pub scan_all-in_order :
      (last_offset : ℕ) (books : BookState F)
      → scan_all blank json calendar filter get clock last_offset books
        ≡ some (
            in_order max_pages 0
              (record { found_so_far = (books, []); last_offset = last_offset; done = false }))
  unfolding scan_all max_pages page_size
  scan_all-in_order last_offset books =
      scan_from-in_order 25 0
        (record { found_so_far = (books, []); last_offset = last_offset; done = false }) refl
        (omega arith)
