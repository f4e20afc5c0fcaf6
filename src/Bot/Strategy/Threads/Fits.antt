-- ===== src/Bot/Strategy/Threads/Fits.antt =====
-- When an order that the I/O thread has decided on fits the account on which it is placed.
use polymarket_tickscope.Base.{
  ℕ, ◌≡◌, ◌≢◌, sym, ap, ◌∙◌, subst, List, ◌∷◌, true, false, none, some, Option-cases, some_inj,
  Bool-cases, inl, inr, arith, if_either, not, ◌||◌,
}
use polymarket_tickscope.Base.Text.{Text, text_eq}
use polymarket_tickscope.Base.Dict.{find, contains, Unique, contains-find}
use polymarket_tickscope.Base.Double.{Double}
use polymarket_tickscope.Bot.Books.{
  MarketBook, BookState, yes_mid, no_mid, yes_valid, no_valid, get_book, get_meta,
}
use polymarket_tickscope.Bot.Orders.{Position, Env, PaperGateway, paper_gateway, sell}
use polymarket_tickscope.Bot.Orders.Sales.{sell-find_self, sell-find_ne}
use polymarket_tickscope.Bot.Strategy.{
  Params, min_remaining_s, expiry_grace_s, ends_within, kelly_min_sh, entry_px,
}
use polymarket_tickscope.Bot.Strategy.Sweep.{elem}
use polymarket_tickscope.Bot.Strategy.Threads.{
  Order, nothing, buys, sells, decide_enter, decide_leave, decide,
}

pub elem_self : (c : Text) (cs : List Text) → elem c (c ∷ cs) ≡ true
unfolding elem
elem_self c cs = ground arith

pub elem_later : (c x : Text) (cs : List Text) → elem c cs ≡ true → elem c (x ∷ cs) ≡ true
unfolding elem
elem_later c x cs h = ground arith

pub no_end : (now : ℕ) → ends_within expiry_grace_s now none ≡ true → ⊥
unfolding ends_within
no_end now e = cc e

module _ (num : Double) where
  open num use {F}

  -- A position that is left after a sale was there before it, and is of another market.
  pub sold_back :
      (env : Env) (cid c : Text) (shares px bid : F) (g : PaperGateway F) (pos : Position F)
      → Unique text_eq g.positions
      → find text_eq c (sell num env cid shares px bid g).positions ≡ some pos
      → (cid ≢ c) × (find text_eq c g.positions ≡ some pos)
  sold_back env cid c shares px bid g pos u e = elim (text_eq cid c) [
    | yes same ↦ absurd (
        let gone = sell-find_self num env cid shares px bid g u in
        let e' =
          subst (λ x. find text_eq x (sell num env cid shares px bid g).positions ≡ some pos)
            (sym same) e in
        cc (gone, e'))
    | no other ↦ (other, sym (sell-find_ne num env cid c shares px bid g other) ∙ e)
  ]

  -- An order that waits still fits the account: nothing to buy is held or about to be swept, and
  -- what is to be sold is held with just these shares, or no more.
  abbrev pub Fits : Order F → List (Text × Position F) → List Text → Type 0
  Fits nothing positions remaining = Unit
  Fits (buys cid _ _ _ _ _) positions remaining =
      (find text_eq cid positions ≡ none) × (elem cid remaining ≡ false)
  Fits (sells cid shares _ _) positions remaining =
      (pos : Position F) → find text_eq cid positions ≡ some pos → pos.shares ≡ shares

  pub Fits-sold :
      (order : Order F) (env : Env) (cid : Text) (shares px bid : F) (g : PaperGateway F)
      (remaining later : List Text)
      → Unique text_eq g.positions
      → ((c : Text) → elem c remaining ≡ false → elem c later ≡ false)
      → Fits order g.positions remaining
      → Fits order (sell num env cid shares px bid g).positions later
  Fits-sold nothing env cid shares px bid g remaining later u fewer h = tt
  Fits-sold (buys c _ _ _ _ _) env cid shares px bid g remaining later u fewer h = (
    elim (Option-cases (find text_eq c (sell num env cid shares px bid g).positions)) [
      | inl e ↦ e
      | inr (pos, e) ↦ absurd (cc (h.0, (sold_back env cid c shares px bid g pos u e).1))
    ],
    fewer c h.1,
  )
  Fits-sold (sells c _ _ _) env cid shares px bid g remaining later u fewer h =
      λ pos e. h pos (sold_back env cid c shares px bid g pos u e).1

module _ (num : Double) (params : Params num) where
  open num use {F}

  decide_enter-Fits :
      (env : Env) (cid : Text) (bk : MarketBook F) (books : BookState F) (g : PaperGateway F)
      (remaining : List Text)
      → find text_eq cid g.positions ≡ none
      → (ends_within min_remaining_s env.now_ms (get_meta cid books) ≡ false
          → elem cid remaining ≡ false)
      → Fits num
          (decide_enter num params (paper_gateway num) env cid bk books g)
          g.positions
          remaining
  unfolding decide_enter
  decide_enter-Fits env cid bk books g remaining new open_end =
      let P = λ (o : Order F). Fits num o g.positions remaining in
      if_either P (not (yes_valid num bk) || not (no_valid num bk)) (λ _. tt)
        (λ _.
          if_either P (num.lt params.threshold (yes_mid num bk)) (λ _. tt)
            (λ _.
              if_either P (num.lt params.max_entry_ask bk.no_ask) (λ _. tt)
                (λ _.
                  if_either P (ends_within min_remaining_s env.now_ms (get_meta cid books))
                    (λ _. tt)
                    (λ t.
                      if_either P (num.lt g.capital (num.mul (entry_px num bk) (kelly_min_sh num)))
                        (λ _. tt) (λ _. (new, open_end t))))))

  decide_leave-Fits :
      (env : Env) (cid : Text) (bk : MarketBook F) (books : BookState F) (g : PaperGateway F)
      (remaining : List Text)
      → Fits num
          (decide_leave num params (paper_gateway num) env cid bk books g)
          g.positions
          remaining
  unfolding decide_leave
  decide_leave-Fits env cid bk books g remaining =
      let P = λ (o : Order F). Fits num o g.positions remaining in
      if_either P (not (no_valid num bk)) (λ _. tt)
        (λ _.
          if_either P
            (num.le params.exit_thresh (no_mid num bk)
              || ends_within expiry_grace_s env.now_ms (get_meta cid books))
            (λ _. elim (Option-cases (find text_eq cid g.positions)) [
              | inl e ↦ rw e tt
              | inr (pos, e) ↦
                  rw (e, Fits)
                    (λ pos' e'. ap (λ (p : Position F). p.shares) (some_inj (sym e' ∙ e)))
            ])
            (λ _. tt))

  pub decide-Fits :
      (env : Env) (cid : Text) (books : BookState F) (g : PaperGateway F) (remaining : List Text)
      → (ends_within min_remaining_s env.now_ms (get_meta cid books) ≡ false
          → elem cid remaining ≡ false)
      → Fits num (decide num params (paper_gateway num) env cid books g) g.positions remaining
  unfolding decide
  decide-Fits env cid books g remaining open_end = elim (Option-cases (get_book cid books)) [
    | inl e ↦ rw (e, decide) tt
    | inr (bk, e) ↦ elim (Bool-cases (contains text_eq cid g.positions)) [
      | inl held ↦ rw (e, decide) (rw held (decide_leave-Fits env cid bk books g remaining))
      | inr new ↦
          rw (e, decide)
            (rw new (
              decide_enter-Fits env cid bk books g remaining
                (contains-find text_eq cid g.positions new) open_end))
    ]
  ]
