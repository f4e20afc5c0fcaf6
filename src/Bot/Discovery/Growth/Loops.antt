-- ===== src/Bot/Discovery/Growth/Loops.antt =====
-- src/bot/BotDiscovery.cpp: what each loop of a discovery does to the books and to the list of
-- tokens.
use polymarket_tickscope.Base.{
  ℕ, zero, suc, ◌+◌, ◌*◌, ◌≤◌, if_either, ◌≡◌, refl, inl, inr, List, [], ◌∷◌, ◌++◌, All, All-append,
  false, Bool-cases, Option, none, some, Option-cases, arith, not, ◌&&◌, ltb, leb,
}
use polymarket_tickscope.Base.Text.{Text}
use polymarket_tickscope.Base.Json.{Json}
use polymarket_tickscope.Base.Http.{body_if_ok, markets_of}
use polymarket_tickscope.Bot.Books.{MarketBook, MarketMeta, BookState, has, get_meta}
use polymarket_tickscope.Bot.Books.Invariant.{IsValid}
use polymarket_tickscope.Bot.Discovery.{Calendar, examine}
use polymarket_tickscope.Bot.Discovery.Pages.{
  Get, Found, track, page_size, path_of, get_or_reconnect, read_page, fetch_gamma_page,
}
use polymarket_tickscope.Bot.Discovery.Scan.{
  WorkerResult, Scan, max_pages, merge_markets, with_page, merge_result, merge_results, batch,
  batch_size, scan_from, scan_all, poll_from, tail_poll,
}
use polymarket_tickscope.Bot.Discovery.Eligible.{IsEligible, examine-IsEligible, batch-AllEligible}
use polymarket_tickscope.Bot.Discovery.Growth.Rounds.{Verdict-cases, examine-new, next_enough}
use polymarket_tickscope.Bot.Discovery.Growth.{
  legs, legs-append, find_meta, Grows, still, more, Grows-IsValid, Grows-new, Grows-get_meta,
}

module _ {F : Type 0} (blank : MarketBook F) (s : BookState F) (filter : Text) where
  -- The books have grown from `s` by some markets that pass the filter, and the tokens are theirs.
  abbrev pub Tracks : Found F → Type 0
  Tracks now =
      (ms : List MarketMeta) × Grows blank s ms now.0
      × (now.1 ≡ legs ms)
      × All (IsEligible filter) ms

  pub start-Tracks : Tracks (s, [])
  start-Tracks = ([], still, unfold legs in refl, tt)

  track-Tracks :
      (m : MarketMeta) (now : Found F)
      → has m.condition_id now.0 ≡ false
      → IsEligible filter m
      → Tracks now
      → Tracks (track blank m now)
  unfolding track legs
  track-Tracks m (books, tokens) new fits (ms, g, e, all) = (
    ms ++ (m ∷ []),
    more m g new,
    rw (e, legs-append ms (m ∷ [])) refl,
    All-append (IsEligible filter) ms (m ∷ []) all (fits, tt),
  )

  merge_markets-Tracks :
      (metas : List MarketMeta) (now : Found F)
      → All (IsEligible filter) metas
      → Tracks now
      → Tracks (merge_markets blank metas now)
  unfolding merge_markets
  merge_markets-Tracks [] now all t = t
  merge_markets-Tracks (m ∷ metas) (books, tokens) all t =
      elim (Bool-cases (has m.condition_id books)) [
        | inl old ↦ rw (merge_markets, old) (merge_markets-Tracks metas (books, tokens) all.1 t)
        | inr new ↦
            rw (merge_markets, new)
              (merge_markets-Tracks metas (track blank m (books, tokens)) all.1
                (track-Tracks m (books, tokens) new all.0 t))
      ]

  module _ (json : Json F) (calendar : Calendar) where
    open json use {Object}

    read_page-Tracks :
        (clock : ℕ → ℕ) (i : ℕ) (markets : List (Option Object)) (count : ℕ) (now : Found F)
        → Tracks now
        → Tracks (read_page blank json calendar filter clock i markets (count, now)).1
    unfolding read_page
    read_page-Tracks clock i [] count now t = t
    read_page-Tracks clock i (m ∷ ms) count (books, tokens) t =
        elim (Verdict-cases (examine json calendar (clock i) filter books m)) [
          | inl e ↦ rw (read_page, e) (read_page-Tracks clock (i + 1) ms count (books, tokens) t)
          | inr (inl e) ↦
              rw (read_page, e) (read_page-Tracks clock (i + 1) ms (count + 1) (books, tokens) t)
          | inr (inr (new, e)) ↦
              rw (read_page, e)
                (read_page-Tracks clock (i + 1) ms (count + 1) (track blank new (books, tokens)) (
                  track-Tracks new (books, tokens)
                    (examine-new json calendar (clock i) filter books m new e)
                    (examine-IsEligible json calendar (clock i) filter books m new e) t))
        ]

    pub fetch_gamma_page-Tracks :
        (get : Get) (clock : ℕ → ℕ) (offset : ℕ) (now : Found F)
        → Tracks now
        → Tracks (fetch_gamma_page blank json calendar filter get clock offset now).1
    unfolding fetch_gamma_page
    fetch_gamma_page-Tracks get clock offset now t =
        elim (Option-cases (body_if_ok (get_or_reconnect get (path_of offset)))) [
          | inl e ↦ rw (fetch_gamma_page, e) t
          | inr (body, e) ↦ elim (Option-cases (markets_of json body)) [
            | inl f ↦ rw (fetch_gamma_page, e, f) t
            | inr (markets, f) ↦
                rw (fetch_gamma_page, e, f) (read_page-Tracks clock 0 markets 0 now t)
          ]
        ]

  with_page-Tracks :
      (count : Option ℕ) (offset : ℕ) (c : Scan F)
      → Tracks c.found_so_far
      → Tracks (with_page blank count offset c).found_so_far
  unfolding with_page
  with_page-Tracks none offset c t = t
  with_page-Tracks (some count) offset c t = elim (Bool-cases (ltb count page_size)) [
    | inl e ↦ rw (with_page, e) t
    | inr e ↦ rw (with_page, e) t
  ]

  merge_results-Tracks :
      (rs : List WorkerResult) (c : Scan F)
      → All (λ (r : WorkerResult). All (IsEligible filter) r.markets) rs
      → Tracks c.found_so_far
      → Tracks (merge_results blank rs c).found_so_far
  unfolding merge_results merge_result
  merge_results-Tracks [] c all t = t
  merge_results-Tracks (r ∷ rs) c all t =
      let merged : Tracks (merge_result blank r c).found_so_far =
        with_page-Tracks r.page_count r.offset
          (record c { found_so_far = merge_markets blank r.markets c.found_so_far })
          (merge_markets-Tracks r.markets c.found_so_far all.0 t) in
      if_either (λ (x : Scan F). Tracks x.found_so_far) (merge_result blank r c).done (λ _. merged)
        (λ _. merge_results-Tracks rs (merge_result blank r c) all.1 merged)

  module _ (json : Json F) (calendar : Calendar) (get : ℕ → Get) (clock : ℕ → ℕ → ℕ) where
    -- The scan ends, having added markets alone.
    abbrev Ends : Option (Scan F) → Type 0
    Ends result = (c : Scan F) × (result ≡ some c) × Tracks c.found_so_far

    scan_from-Ends :
        (fuel offset : ℕ) (c : Scan F)
        → max_pages * page_size ≤ offset + fuel * page_size
        → Tracks c.found_so_far
        → Ends (scan_from blank json calendar filter get clock (suc fuel) offset c)
    unfolding scan_from
    scan_from-Ends zero offset c enough t =
        if_either Ends (not c.done && ltb offset (max_pages * page_size))
          (λ run. absurd (ground arith)) (λ _. (c, refl, t))
    scan_from-Ends (suc fuel) offset c enough t =
        let n = batch_size offset in
        if_either Ends (not c.done && ltb offset (max_pages * page_size))
          (λ run.
            if_either Ends (leb n 0) (λ _. (c, refl, t))
              (λ on.
                scan_from-Ends fuel (offset + n * page_size)
                  (merge_results blank (batch blank json calendar filter get clock n offset) c)
                  (next_enough fuel offset (ground arith) enough)
                  (merge_results-Tracks (batch blank json calendar filter get clock n offset) c
                    (batch-AllEligible blank json calendar filter get clock n offset) t)))
          (λ _. (c, refl, t))

    poll_from-Tracks :
        (pages offset last : ℕ) (now : Found F)
        → Tracks now
        → Tracks (poll_from blank json calendar filter get clock pages offset last now).1
    unfolding poll_from
    poll_from-Tracks zero offset last now t = t
    poll_from-Tracks (suc pages) offset last now t =
        let read =
          fetch_gamma_page blank json calendar filter (get offset) (clock offset) offset now in
        let next = fetch_gamma_page-Tracks json calendar (get offset) (clock offset) offset now t in
        if_either (λ (x : ℕ × Found F). Tracks x.1) (ltb read.0 page_size) (λ _. next)
          (λ _. poll_from-Tracks pages (offset + page_size) last read.1 next)

    -- What tracking `ms` comes to.
    abbrev pub Learns : List MarketMeta → Found F → Type 0
    Learns ms now =
        All (λ m. has m.condition_id s ≡ false) ms
        × ((cid : Text) → get_meta cid now.0 ≡ find_meta cid ms (get_meta cid s))
        × (now.1 ≡ legs ms)
        × IsValid now.0
        × All (IsEligible filter) ms

    Tracks-Learns :
        (now : Found F) → IsValid s → Tracks now → (ms : List MarketMeta) × Learns ms now
    Tracks-Learns now v (ms, g, e, all) = (
      ms,
      (Grows-new blank g, λ cid. Grows-get_meta blank cid g, e, Grows-IsValid blank g v, all),
    )

    -- On valid books, the scan returns, and there are markets such that none of them was
    -- tracked before, each market's metadata are the last of its id among them or else as
    -- before, the tokens to subscribe to are their two tokens in order, the books stay
    -- valid, and each one's question contains the filter, ignoring the question's case,
    -- and its end is known.
    pub scan_all-Learns :
        (last_offset : ℕ)
        → IsValid s
        → (c : Scan F) × (ms : List MarketMeta) × (scan_all blank json calendar filter get clock
              last_offset s
            ≡ some c)
          × Learns ms c.found_so_far
    unfolding scan_all max_pages page_size
    scan_all-Learns last_offset v =
        let (c, e, t) =
          scan_from-Ends 25 0
            (record { found_so_far = (s, []); last_offset = last_offset; done = false })
            (omega arith) start-Tracks in
        let (ms, l) = Tracks-Learns c.found_so_far v t in (c, ms, e, l)

    -- On valid books, there are markets such that, after a tail poll, none of them was
    -- tracked before, each market's metadata are the last of its id among them or else as
    -- before, the tokens to subscribe to are their two tokens in order, the books stay
    -- valid, and each one's question contains the filter, ignoring the question's case,
    -- and its end is known.
    pub tail_poll-Learns :
        (last_offset : ℕ)
        → IsValid s
        → (ms : List MarketMeta) × Learns ms
            (tail_poll blank json calendar filter get clock last_offset s).1
    unfolding tail_poll
    tail_poll-Learns last_offset v =
        Tracks-Learns (tail_poll blank json calendar filter get clock last_offset s).1 v
          (poll_from-Tracks max_pages last_offset last_offset (s, []) start-Tracks)
