-- ===== src/Bot/Strategy/Sweep.antt =====
-- The expiry sweep over the paper gateway: which positions it closes.
use polymarket_tickscope.Base.{
  ℕ, ◌≡◌, ◌≢◌, refl, List, [], ◌∷◌, Bool, true, false, none, some, arith, Option-cases, Bool-cases,
  inl, inr, ite, if◌then◌else◌, All,
}
use polymarket_tickscope.Base.Text.{Text, text_eq}
use polymarket_tickscope.Base.Dict.{find, Unique}
use polymarket_tickscope.Base.Double.{Double}
use polymarket_tickscope.Bot.Books.{BookState, get_meta, get_book}
use polymarket_tickscope.Bot.Orders.{Position, Env, PaperGateway, paper_gateway, sell}
use polymarket_tickscope.Bot.Orders.Sales.{sell-find_self, sell-find_ne, sell-Unique}
use polymarket_tickscope.Bot.Strategy.{
  Params, expiry_grace_s, ends_within, expired_cids, close_all, sweep_px, sweep_expired,
}

unfoldable pub elem : Text → List Text → Bool
elem c [] = false
elem c (x ∷ xs) = ite (text_eq x c) true (elem c xs)

module _ (num : Double) (params : Params num) where
  open num use {F}

  -- The markets collected are those of the snapshot that are due.
  pub elem-expired_cids :
      (now : ℕ) (books : BookState F) (c : Text) (m : List (Text × Position F))
      → elem c (expired_cids num (paper_gateway num) params now books m) ≡ elim (find text_eq c m) [
        | none ↦ false
        | some _ ↦ ends_within expiry_grace_s now (get_meta c books)
      ]
  unfolding elem expired_cids find
  elem-expired_cids now books c [] = refl
  elem-expired_cids now books c ((cid, pos) ∷ m) = ground (arith, elem-expired_cids now books c m)

  held_expired :
      (now : ℕ) (books : BookState F) (snapshot m : List (Text × Position F))
      → ((c : Text) → find text_eq c snapshot ≡ none → find text_eq c m ≡ none)
      → All
          (λ c. find text_eq c snapshot ≢ none)
          (expired_cids num (paper_gateway num) params now books m)
  unfolding expired_cids find
  held_expired now books snapshot [] h = tt
  held_expired now books snapshot ((cid, pos) ∷ m) h =
      elim (Bool-cases (ends_within expiry_grace_s now (get_meta cid books))) [
        | inl due ↦ rw due ((λ e. ground (arith, h cid e)), held_expired now books snapshot m later)
        | inr open_end ↦ rw open_end (held_expired now books snapshot m later)
      ]
    where
      later : (c : Text) → find text_eq c snapshot ≡ none → find text_eq c m ≡ none
      later c e = ground (arith, h c e)

  -- Selling the collected markets one by one takes out those and no others.
  close_all-find :
      (env : Env) (books : BookState F) (snapshot : List (Text × Position F)) (cids : List Text)
      (g : PaperGateway F) (c : Text)
      → All (λ x. find text_eq x snapshot ≢ none) cids
      → Unique text_eq g.positions
      → find text_eq c
          (close_all num (paper_gateway num) params env books snapshot cids g).positions
        ≡ (if elem c cids then none else find text_eq c g.positions)
  unfolding close_all elem
  close_all-find env books snapshot [] g c h u = refl
  close_all-find env books snapshot (cid ∷ cids) g c h u =
      elim (Option-cases (find text_eq cid snapshot)) [
        | inl absent ↦ absurd (h.0 absent)
        | inr (pos, e) ↦
            let px = sweep_px num (paper_gateway num) params (get_book cid books) pos in
            rw (e, close_all)
              (ground (
                arith,
                close_all-find env books snapshot cids (sell num env cid pos.shares px px g) c h.1
                    (sell-Unique num env cid pos.shares px px g u),
                sell-find_self num env cid pos.shares px px g u,
                sell-find_ne num env cid c pos.shares px px g,
              ))
      ]

  -- After a sweep of a paper gateway whose positions have distinct markets, the markets that
  -- have ended or end within the grace period hold no position, and every other market's
  -- position is as before.
  pub sweep_expired-find :
      (env : Env) (books : BookState F) (g : PaperGateway F) (c : Text)
      → Unique text_eq g.positions
      → find text_eq c (sweep_expired num (paper_gateway num) params env books g).1.positions ≡ (
          if ends_within expiry_grace_s env.now_ms (get_meta c books)
          then none
          else find text_eq c g.positions)
  unfolding sweep_expired
  sweep_expired-find env books g c u = ground (
    arith,
    close_all-find env books g.positions
        (expired_cids num (paper_gateway num) params env.now_ms books g.positions) g c
        (held_expired env.now_ms books g.positions g.positions (λ c e. e)) u,
    elem-expired_cids env.now_ms books c g.positions,
  )
