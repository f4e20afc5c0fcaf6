-- ===== src/Harvester/Subscribed.antt =====
-- What the rediscovery thread subscribes to.
use polymarket_tickscope.Base.{
  ◌≡◌, refl, sym, ap, ◌∙◌, subst, List, [], ◌∷◌, ◌++◌, append_assoc, append-nil, All, All-append,
  Bool, true, false, if_either, leb, not, ◌&&◌, ℕ,
}
use polymarket_tickscope.Base.Text.{Text}
use polymarket_tickscope.Gateway.Metadata.{Printf, TokenMeta, Disk, is_known, is_empty}
use polymarket_tickscope.Gateway.Metadata.Known.{is_known-cons, is_known_self}
use polymarket_tickscope.Gateway.Filter.{filter_by_question-nil}
use polymarket_tickscope.Gateway.Client.Replay.{Covers, new_client-Covers, subscribe-Covers}
use polymarket_tickscope.Harvester.{
  DataFile, Harvester, Cycle, ids, diff, subscribe_set, retain, discover, no_tokens, rediscover,
  rediscover_loop, boot,
}

-- The known tokens after these have been inserted.
unfoldable pub learn : List Text → List Text → List Text
learn [] known = known
learn (t ∷ ts) known = learn ts (t ∷ known)

-- None of them known, and none twice.
abbrev pub Distinct : List Text → List Text → Type 0
Distinct known [] = Unit
Distinct known (t ∷ ts) = (is_known t known ≡ false) × Distinct (t ∷ known) ts

pub learn-append : (xs ys known : List Text) → learn (xs ++ ys) known ≡ learn ys (learn xs known)
unfolding learn
learn-append [] ys known = refl
learn-append (x ∷ xs) ys known = learn-append xs ys (x ∷ known)

pub Distinct-append :
    (xs ys known : List Text)
    → Distinct known xs
    → Distinct (learn xs known) ys
    → Distinct known (xs ++ ys)
unfolding learn
Distinct-append [] ys known h k = k
Distinct-append (x ∷ xs) ys known h k = (h.0, Distinct-append xs ys (x ∷ known) h.1 k)

is_known-learn :
    (t : Text) (ts known : List Text) → is_known t known ≡ true → is_known t (learn ts known) ≡ true
unfolding learn
is_known-learn t [] known h = h
is_known-learn t (k ∷ ts) known h = is_known-learn t ts (k ∷ known) (is_known-cons t k known h)

module _ {Int : Type 0} where
  -- All these tokens are known.
  abbrev pub AllKnown : List Text → List (TokenMeta Int) → Type 0
  AllKnown known ms = All (λ m. is_known m.token_id known ≡ true) ms

  AllKnown-learn :
      (ts known : List Text) (ms : List (TokenMeta Int))
      → AllKnown known ms
      → AllKnown (learn ts known) ms
  AllKnown-learn ts known [] h = tt
  AllKnown-learn ts known (m ∷ ms) h =
      (is_known-learn m.token_id ts known h.0, AllKnown-learn ts known ms h.1)

  -- What the loop over the tokens found comes to.
  abbrev Diffed : List (TokenMeta Int) → List Text → List Text × List Text → Type 0
  Diffed ms known new = Distinct known new.0 × (new.1 ≡ learn new.0 known) × AllKnown new.1 ms

  diff-Diffed : (ms : List (TokenMeta Int)) (known : List Text) → Diffed ms known (diff ms known)
  unfolding diff learn
  diff-Diffed [] known = (tt, refl, tt)
  diff-Diffed (m ∷ ms) known =
      let (d, e, k) = diff-Diffed ms known in
      let (d', e', k') = diff-Diffed ms (m.token_id ∷ known) in
      if_either (Diffed (m ∷ ms) known) (is_known m.token_id known)
        (λ old. (
          d,
          e,
          (
            subst (λ l. is_known m.token_id l ≡ true) (sym e)
                (is_known-learn m.token_id (diff ms known).0 known old),
            k,
          ),
        ))
        (λ new. (
          (new, d'),
          e',
          (
            subst (λ l. is_known m.token_id l ≡ true) (sym e')
                (is_known-learn m.token_id (diff ms (m.token_id ∷ known)).0 (m.token_id ∷ known)
                  (is_known_self m.token_id known)),
            k',
          ),
        ))

  subscribe_set-nil : (filter_str : Text) → subscribe_set {Int = Int} filter_str [] ≡ []
  unfolding subscribe_set
  subscribe_set-nil filter_str =
      if_either (λ ms. ms ≡ []) (is_empty filter_str) (λ _. refl)
        (λ _. filter_by_question-nil filter_str)

  none_known :
      (filter_str : Text) (ms : List (TokenMeta Int)) (known : List Text)
      → no_tokens ms ≡ true
      → AllKnown known (subscribe_set filter_str ms)
  none_known filter_str [] known e = subst (AllKnown known) (sym (subscribe_set-nil filter_str)) tt
  none_known filter_str (m ∷ ms) known e = absurd (cc e)

module _ (printf : Printf) (filter_str : Text) (retention_days : ℕ) where
  open printf use {Int}

  -- From `h` to `h'` by subscribing to some tokens that were not known, each once: a connection
  -- opened with the tokens of `base` and of them, and these tokens found are known.
  abbrev pub Follows : List Text → Harvester → Harvester → List (TokenMeta Int) → Type 0
  Follows base h h' found =
      (added : List Text) × Covers (base ++ added) h'.client
      × Distinct h.known_ids added
      × (h'.known_ids ≡ learn added h.known_ids)
      × AllKnown h'.known_ids found

  -- The tokens that the cycles found and the filter let through.
  unfoldable pub wanted : List (Cycle Int) → List (TokenMeta Int)
  wanted [] = []
  wanted (c ∷ cs) = subscribe_set filter_str c.fresh ++ wanted cs

  discover-Follows :
      (base : List Text) (c : Cycle Int) (h : Harvester)
      → Covers base h.client
      → Follows base h
          (discover printf filter_str retention_days c h)
          (subscribe_set filter_str c.fresh)
  unfolding discover
  discover-Follows base c h covers =
      let (d, e, k) = diff-Diffed (subscribe_set filter_str c.fresh) h.known_ids in
      let new = (diff (subscribe_set filter_str c.fresh) h.known_ids).0 in
      (new, subscribe-Covers new base h.client covers, d, e, k)

  retain-Follows :
      (base : List Text) (c : Cycle Int) (h h' : Harvester) (found : List (TokenMeta Int))
      → Follows base h h' found
      → Follows base h (retain printf filter_str retention_days c h') found
  unfolding retain
  retain-Follows base c h h' found f =
      if_either (λ (x : Harvester). Follows base h x found)
        (not (leb retention_days 0) && leb h'.retention_due c.now) (λ _. f) (λ _. f)

  rediscover-Follows :
      (base : List Text) (c : Cycle Int) (h : Harvester)
      → Covers base h.client
      → Follows base h
          (rediscover printf filter_str retention_days c h)
          (subscribe_set filter_str c.fresh)
  unfolding rediscover learn
  rediscover-Follows base c h covers =
      if_either (λ (x : Harvester). Follows base h x (subscribe_set filter_str c.fresh))
        (no_tokens c.fresh)
        (λ e. ([], rw append-nil covers, tt, refl, none_known filter_str c.fresh h.known_ids e))
        (λ _.
          retain-Follows base c h (discover printf filter_str retention_days c h)
            (subscribe_set filter_str c.fresh) (discover-Follows base c h covers))

  rediscover_loop-Follows :
      (cs : List (Cycle Int)) (base : List Text) (h : Harvester)
      → Covers base h.client
      → Follows base h (rediscover_loop printf filter_str retention_days cs h) (wanted cs)
  unfolding rediscover_loop wanted learn
  rediscover_loop-Follows [] base h covers = ([], rw append-nil covers, tt, refl, tt)
  rediscover_loop-Follows (c ∷ cs) base h covers =
      let next = rediscover printf filter_str retention_days c h in
      let (added, covers', d, e, k) = rediscover-Follows base c h covers in
      let (more, covers_all, d', e', k') =
        rediscover_loop-Follows cs (base ++ added) next covers' in
      let last = (rediscover_loop printf filter_str retention_days cs next).known_ids in
      (
        added ++ more,
        subst (λ ts. Covers ts (rediscover_loop printf filter_str retention_days cs next).client)
            (append_assoc base added more) covers_all,
        Distinct-append added more h.known_ids d (subst (λ known. Distinct known more) e d'),
        e' ∙ (ap (learn more) e ∙ sym (learn-append added more h.known_ids)),
        All-append (λ m. is_known m.token_id last ≡ true) (subscribe_set filter_str c.fresh)
            (wanted cs)
            (subst (λ known. AllKnown known (subscribe_set filter_str c.fresh)) (sym e')
              (AllKnown-learn more next.known_ids (subscribe_set filter_str c.fresh) k))
            k',
      )

  -- After any cycles from the boot, the tokens subscribed since were not known at boot and
  -- are subscribed to once each, a new connection subscribes to those of the boot and to
  -- them, the known tokens are those of the boot and them, and every token that a cycle
  -- found and the filter let through is known.
  pub rediscover_loop-boot-Follows :
      (cs : List (Cycle Int)) (opens renames : Bool) (now : ℕ) (market_meta : List (TokenMeta Int))
      (old : Disk) (files : List DataFile)
      → Follows
          (ids (subscribe_set filter_str market_meta))
          (boot printf filter_str retention_days opens renames now market_meta old files)
          (rediscover_loop printf filter_str retention_days cs
            (boot printf filter_str retention_days opens renames now market_meta old files))
          (wanted cs)
  unfolding boot
  rediscover_loop-boot-Follows cs opens renames now market_meta old files =
      rediscover_loop-Follows cs (ids (subscribe_set filter_str market_meta))
        (boot printf filter_str retention_days opens renames now market_meta old files)
        (new_client-Covers (ids (subscribe_set filter_str market_meta)))
