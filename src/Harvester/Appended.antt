-- ===== src/Harvester/Appended.antt =====
-- What the rediscovery thread adds to the metadata file.
use polymarket_tickscope.Base.{
  ◌≡◌, ◌≢◌, refl, sym, ap, ◌∙◌, subst, List, [], ◌∷◌, ◌++◌, append_assoc, append-nil, Bool, true,
  false, if_either,
}
use polymarket_tickscope.Base.Text.{Text}
use polymarket_tickscope.Gateway.Metadata.{
  Printf, TokenMeta, Disk, is_known, rows, row, new_rows, contents, header_if_empty,
  append_new_metadata_csv,
}
use polymarket_tickscope.Harvester.{
  Harvester, Cycle, ids, retain, discover, no_tokens, rediscover, rediscover_loop,
}
use polymarket_tickscope.Harvester.Subscribed.{learn, Distinct, Distinct-append, learn-append}

module _ (printf : Printf) where
  open printf use {Int}

  -- The text is the rows of some tokens that were not known, each once, and they are known now.
  abbrev Fresh : List Text → List (TokenMeta Int) → Text → List Text → Type 0
  Fresh known added text seen =
      (text ≡ rows printf added) × Distinct known (ids added) × (seen ≡ learn (ids added) known)

  new_rows-Fresh :
      (fresh : List (TokenMeta Int)) (known : List Text)
      → (added : List (TokenMeta Int)) × Fresh known added
          (new_rows printf fresh known).0
          (new_rows printf fresh known).1
  unfolding new_rows rows learn ids
  new_rows-Fresh [] known = ([], (refl, tt, refl))
  new_rows-Fresh (m ∷ fresh) known =
      let skipped = new_rows-Fresh fresh known in
      let (added, (e, d, l)) = new_rows-Fresh fresh (m.token_id ∷ known) in
      if_either (λ (r : Text × List Text). (ms : List (TokenMeta Int)) × Fresh known ms r.0 r.1)
        (is_known m.token_id known) (λ _. skipped)
        (λ new. (m ∷ added, (ap (λ more. row printf m ++ (10 ∷ more)) e, (new, d), l)))

  no-header : (file : Text) → file ≢ [] → header_if_empty file ≡ []
  no-header [] h = absurd (h refl)
  no-header (c ∷ cs) h = refl

  ids-append : (xs ys : List (TokenMeta Int)) → ids (xs ++ ys) ≡ ids xs ++ ids ys
  unfolding ids
  ids-append [] ys = refl
  ids-append (x ∷ xs) ys = ap (◌∷◌ x.token_id) (ids-append xs ys)

  rows-append :
      (xs ys : List (TokenMeta Int)) → rows printf (xs ++ ys) ≡ rows printf xs ++ rows printf ys
  unfolding rows
  rows-append [] ys = refl
  rows-append (x ∷ xs) ys =
      ap (λ more. row printf x ++ (10 ∷ more)) (rows-append xs ys)
      ∙ sym (append_assoc (row printf x) (10 ∷ rows printf xs) (rows printf ys))

  append-ne : (file more : Text) → file ≢ [] → file ++ more ≢ []
  append-ne [] more h e = absurd (h refl)
  append-ne (c ∷ cs) more h e = cc e

  -- The file has got the rows of some tokens, none of them known before and none twice.
  abbrev pub Gains : Disk → List Text → Disk → List Text → Type 0
  Gains disk known disk' known' =
      (added : List (TokenMeta Int)) × (contents disk'.csv ≡ contents disk.csv ++ rows printf added)
      × Distinct known (ids added)
      × (known' ≡ learn (ids added) known)

  same-Gains : (disk : Disk) (known : List Text) → Gains disk known disk known
  unfolding rows learn ids
  same-Gains disk known = ([], rw append-nil refl, tt, refl)

  append-Gains :
      (opens : Bool) (fresh : List (TokenMeta Int)) (disk : Disk) (known : List Text)
      → contents disk.csv ≢ []
      → Gains disk known
          (append_new_metadata_csv printf opens fresh (disk, known)).0
          (append_new_metadata_csv printf opens fresh (disk, known)).1
  unfolding append_new_metadata_csv
  append-Gains false fresh disk known ne = same-Gains disk known
  append-Gains true fresh disk known ne =
      let (added, (e, d, l)) = new_rows-Fresh fresh known in
      let file = contents disk.csv in
      (
        added,
        ap (λ header. (file ++ header) ++ (new_rows printf fresh known).0) (no-header file ne)
            ∙ (ap (λ x. x ++ (new_rows printf fresh known).0) (append-nil file) ∙ ap (◌++◌ file) e),
        d,
        l,
      )

module _ (printf : Printf) (filter_str : Text) where
  open printf use {Int}

  abbrev loop : List (Cycle Int) → Harvester → Harvester
  loop cs h = rediscover_loop printf filter_str 0 cs h

  rediscover-Gains :
      (c : Cycle Int) (h : Harvester)
      → contents h.disk.csv ≢ []
      → Gains printf h.disk h.metadata_known
          (rediscover printf filter_str 0 c h).disk
          (rediscover printf filter_str 0 c h).metadata_known
  unfolding rediscover retain discover
  rediscover-Gains c h ne =
      if_either (λ (x : Harvester). Gains printf h.disk h.metadata_known x.disk x.metadata_known)
        (no_tokens c.fresh) (λ _. same-Gains printf h.disk h.metadata_known)
        (λ _. append-Gains printf c.append_opens c.fresh h.disk h.metadata_known ne)

  -- Without retention and with a metadata file that is not empty, any cycles only put rows
  -- at its end, of tokens that were not known, each once, and those are then known besides
  -- the others.
  pub rediscover_loop-Gains :
      (cs : List (Cycle Int)) (h : Harvester)
      → contents h.disk.csv ≢ []
      → Gains printf h.disk h.metadata_known (loop cs h).disk (loop cs h).metadata_known
  unfolding rediscover_loop
  rediscover_loop-Gains [] h ne = same-Gains printf h.disk h.metadata_known
  rediscover_loop-Gains (c ∷ cs) h ne =
      let next = rediscover printf filter_str 0 c h in
      let (added, e, d, l) = rediscover-Gains c h ne in
      let (more, e', d', l') = rediscover_loop-Gains cs next (
        subst (λ t. t ≢ []) (sym e)
          (append-ne printf (contents h.disk.csv) (rows printf added) ne)) in
      (
        added ++ more,
        e'
            ∙ (ap (λ t. t ++ rows printf more) e
                ∙ (append_assoc (contents h.disk.csv) (rows printf added) (rows printf more)
                    ∙ ap (◌++◌ (contents h.disk.csv)) (sym (rows-append printf added more)))),
        subst (Distinct h.metadata_known) (sym (ids-append printf added more)) (
            Distinct-append (ids added) (ids more) h.metadata_known d
              (subst (λ known. Distinct known (ids more)) l d')),
        l'
            ∙ (ap (learn (ids more)) l
                ∙ (sym (learn-append (ids added) (ids more) h.metadata_known)
                    ∙ ap (λ ts. learn ts h.metadata_known) (sym (ids-append printf added more)))),
      )
