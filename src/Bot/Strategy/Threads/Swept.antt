-- ===== src/Bot/Strategy/Threads/Swept.antt =====
-- The account while the main thread collects and sells expired positions.
use polymarket_tickscope.Base.{
  ℕ, ◌≤◌, ◌≡◌, refl, sym, ap, ◌∙◌, subst, List, [], ◌∷◌, true, false, none, some, Option-cases,
  some_inj, Bool-cases, inl, inr,
}
use native.Mathlib.Nat.{le_refl}
use polymarket_tickscope.Base.Text.{Text, text_eq}
use polymarket_tickscope.Base.Dict.{find}
use polymarket_tickscope.Base.Double.{Double}
use polymarket_tickscope.Base.Double.Exact.{IsExact}
use polymarket_tickscope.Bot.Books.{BookState, get_book, get_meta}
use polymarket_tickscope.Bot.Orders.{Position, Env, paper_gateway}
use polymarket_tickscope.Bot.Strategy.{
  Params, expiry_grace_s, ends_within, expired_cids, close_all, sweep_px,
}
use polymarket_tickscope.Bot.Strategy.Sweep.{elem, elem-expired_cids}
use polymarket_tickscope.Bot.Strategy.Threads.{Order, nothing, buys, sells, Threads}
use polymarket_tickscope.Bot.Strategy.Threads.Fits.{elem_self, elem_later, Fits}
use polymarket_tickscope.Bot.Strategy.Threads.Safe.{Safe, sold-Safe}

module _ (num : Double) (params : Params num) where
  open num use {F}

  module _ (exact : IsExact num) (initial : F) where
    Fits-collected :
        (order : Order F) (now : ℕ) (books : BookState F) (positions : List (Text × Position F))
        (old : List Text)
        → Fits num order positions old
        → Fits num order positions (expired_cids num (paper_gateway num) params now books positions)
    Fits-collected nothing now books positions old h = tt
    Fits-collected (buys cid _ _ _ _ _) now books positions old h =
        (h.0, elem-expired_cids num params now books cid positions ∙ rw h.0 refl)
    Fits-collected (sells cid _ _ _) now books positions old h = h

    pub collect-Safe :
        (s : Threads num params) (env : Env)
        → s.clock ≤ env.now_ms
        → Safe num params initial s
        → Safe num params initial (record s {
          clock = env.now_ms;
          snapshot = s.account.positions;
          remaining =
              expired_cids num (paper_gateway num) params env.now_ms s.books s.account.positions;
        })
    collect-Safe s env c h = record {
      valid = h.valid;
      balanced = h.balanced;
      unique = h.unique;
      fits = Fits-collected s.order env.now_ms s.books s.account.positions s.remaining h.fits;
      within = λ c pos e held. held;
      due = λ c e. (
        env.now_ms,
        le_refl env.now_ms,
        ends c (sym (elem-expired_cids num params env.now_ms s.books c s.account.positions) ∙ e),
      );
    }
      where
        ends :
            (c : Text)
            → elim (find text_eq c s.account.positions) [
              | none ↦ false
              | some _ ↦ ends_within expiry_grace_s env.now_ms (get_meta c s.books)
            ]
              ≡ true
            → ends_within expiry_grace_s env.now_ms (get_meta c s.books) ≡ true
        ends c e = elim (Option-cases (find text_eq c s.account.positions)) [
          | inl f ↦ absurd (let e' = rw f at e in cc e')
          | inr (pos, f) ↦ rw f at e
        ]

    Fits-fewer :
        (order : Order F) (positions : List (Text × Position F)) (cid : Text) (cids : List Text)
        → Fits num order positions (cid ∷ cids)
        → Fits num order positions cids
    Fits-fewer nothing positions cid cids h = tt
    Fits-fewer (buys c _ _ _ _ _) positions cid cids h = (
      h.0,
      elim (Bool-cases (elem c cids)) [
        | inl l ↦ absurd (cc (elem_later c cid cids l, h.1))
        | inr l ↦ l
      ],
    )
    Fits-fewer (sells c _ _ _) positions cid cids h = h

    pub sweep-Safe :
        (s : Threads num params) (env : Env) (cid : Text) (cids : List Text)
        → s.remaining ≡ cid ∷ cids
        → Safe num params initial s
        → Safe num params initial (record s {
          account =
              close_all num (paper_gateway num) params env s.books s.snapshot (cid ∷ []) s.account;
          remaining = cids;
        })
    unfolding close_all
    sweep-Safe s env cid cids e h = elim (Option-cases (find text_eq cid s.snapshot)) [
      | inl f ↦
          rw (f, close_all)
            record {
              valid = h.valid;
              balanced = h.balanced;
              unique = h.unique;
              fits =
                  Fits-fewer s.order s.account.positions cid cids
                    (subst (Fits num s.order s.account.positions) e h.fits);
              within = λ c pos l. h.within c pos (fewer c l);
              due = λ c l. h.due c (fewer c l);
            }
      | inr (pos, f) ↦
          let px = sweep_px num (paper_gateway num) params (get_book cid s.books) pos in
          rw (f, close_all)
            (sold-Safe num params exact initial s env cid pos.shares px px cids h
              (λ pos' held.
                ap (λ (p : Position F). p.shares)
                  (some_inj (sym (h.within cid pos' here_too held) ∙ f)))
              fewer)
    ]
      where
        fewer : (c : Text) → elem c cids ≡ true → elem c s.remaining ≡ true
        fewer c l = subst (λ cs. elem c cs ≡ true) (sym e) (elem_later c cid cids l)

        here_too : elem cid s.remaining ≡ true
        here_too = subst (λ cs. elem cid cs ≡ true) (sym e) (elem_self cid cids)
