-- ===== src/Bot/Discovery/Offline.antt =====
-- A discovery without network: requests that all fail, or answer another status than 200.
use polymarket_tickscope.Base.{
  ℕ, zero, suc, ◌+◌, ◌≡◌, refl, sym, ap, ◌∙◌, inl, inr, [], false, none, some, Option-cases,
  if_false,
}
use polymarket_tickscope.Base.Text.{Text}
use polymarket_tickscope.Base.Json.{Json}
use polymarket_tickscope.Base.Http.{body_if_ok}
use polymarket_tickscope.Bot.Books.{MarketBook, BookState}
use polymarket_tickscope.Bot.Discovery.{Calendar}
use polymarket_tickscope.Bot.Discovery.Pages.{
  Get, Found, path_of, get_or_reconnect, attempt_from, max_attempts, page_size, fetch_gamma_page,
  fetch_gamma_page_worker,
}
use polymarket_tickscope.Bot.Discovery.Scan.{
  Scan, max_pages, merge_markets, with_page, merge_result, worker, scan_all, poll_from, tail_poll,
}
use polymarket_tickscope.Bot.Discovery.Sequential.{in_order, scan_all-in_order}

-- No request at that path is answered with status 200.
abbrev pub IsDown : Get → Text → Type 0
IsDown get path = (attempt : ℕ) → body_if_ok (get attempt path) ≡ none

attempt_from-none :
    (left n : ℕ) (get : Get) (path : Text) → IsDown get path → attempt_from get path n left ≡ none
unfolding attempt_from
attempt_from-none zero n get path down = refl
attempt_from-none (suc left) n get path down =
    rw (attempt_from, down n) (attempt_from-none left (n + 1) get path down)

get_or_reconnect-none :
    (get : Get) (path : Text) → IsDown get path → body_if_ok (get_or_reconnect get path) ≡ none
unfolding get_or_reconnect
get_or_reconnect-none get path down = elim (Option-cases (get 0 path)) [
  | inl e ↦ rw (get_or_reconnect, e) (down 1)
  | inr (res, e) ↦ rw (get_or_reconnect, e) (ap body_if_ok (sym e) ∙ down 0)
]

module _ {F : Type 0} (blank : MarketBook F) (json : Json F) (calendar : Calendar) (filter : Text)
    (get : ℕ → Get) (clock : ℕ → ℕ → ℕ) where
  fetch_gamma_page-none :
      (offset : ℕ) (now : Found F)
      → IsDown (get offset) (path_of offset)
      → fetch_gamma_page blank json calendar filter (get offset) (clock offset) offset now
        ≡ (0, now)
  unfolding fetch_gamma_page
  fetch_gamma_page-none offset now down =
      rw (fetch_gamma_page, get_or_reconnect-none (get offset) (path_of offset) down) refl

  fetch_gamma_page_worker-none :
      (offset : ℕ)
      → IsDown (get offset) (path_of offset)
      → fetch_gamma_page_worker blank json calendar filter (get offset) (clock offset) offset
        ≡ (none, [])
  unfolding fetch_gamma_page_worker
  fetch_gamma_page_worker-none offset down =
      rw
        (
          fetch_gamma_page_worker,
          attempt_from-none max_attempts 0 (get offset) (path_of offset) down,
        )
        refl

  merge_none :
      (offset : ℕ) (s : Scan F)
      → IsDown (get offset) (path_of offset)
      → merge_result blank (worker blank json calendar filter get clock offset) s ≡ s
  unfolding merge_result with_page merge_markets worker
  merge_none offset s down =
      ap
        (λ read.
          merge_result blank (record { page_count = read.0; markets = read.1; offset = offset }) s)
        (fetch_gamma_page_worker-none offset down)

  in_order-none :
      (n offset : ℕ) (s : Scan F)
      → ((o : ℕ) → IsDown (get o) (path_of o))
      → s.done ≡ false
      → in_order blank json calendar filter get clock n offset s ≡ s
  unfolding in_order
  in_order-none zero offset s down h = refl
  in_order-none (suc n) offset s down h =
      if_false (ap (λ (x : Scan F). x.done) (merge_none offset s (down offset)) ∙ h) _
      ∙ (ap (in_order blank json calendar filter get clock n (offset + page_size))
            (merge_none offset s (down offset))
          ∙ in_order-none n (offset + page_size) s down h)

  -- Where no request is answered with status 200, the scan returns without a token and
  -- without having met a last page, the tail poll without a token, and both leave the books
  -- and the last offset.
  pub discovery_offline :
      (last_offset : ℕ) (books : BookState F)
      → ((o : ℕ) → IsDown (get o) (path_of o))
      → (scan_all blank json calendar filter get clock last_offset books
          ≡ some (record { found_so_far = (books, []); last_offset = last_offset; done = false }))
        × (tail_poll blank json calendar filter get clock last_offset books
            ≡ (last_offset, (books, [])))
  unfolding tail_poll poll_from max_pages page_size
  discovery_offline last_offset books down = (
    scan_all-in_order blank json calendar filter get clock last_offset books
        ∙ ap some (
            in_order-none max_pages 0
              (record { found_so_far = (books, []); last_offset = last_offset; done = false }) down
              refl),
    rw (poll_from, fetch_gamma_page-none last_offset (books, []) (down last_offset)) refl,
  )
