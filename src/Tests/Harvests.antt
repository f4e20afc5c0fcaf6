-- ===== src/Tests/Harvests.antt =====
-- Rediscovery and retention at concrete inputs.
use polymarket_tickscope.Base.{◌≢◌, List, [], ◌∷◌, All, true, none, some}
use polymarket_tickscope.Base.Text.{Text, codes}
use polymarket_tickscope.Gateway.Metadata.{Printf, TokenMeta, Disk, contents, merged}
use polymarket_tickscope.Gateway.Metadata.Merge.{AllListed, IsCurrent, merged-IsCurrent}
use polymarket_tickscope.Harvester.{
  DataFile, Harvester, Cycle, ids, subscribe_set, rediscover_loop, boot,
}
use polymarket_tickscope.Harvester.Subscribed.{Follows, wanted, rediscover_loop-boot-Follows}
use polymarket_tickscope.Harvester.Appended.{Gains, rediscover_loop-Gains}
use polymarket_tickscope.Gateway.Client.{new_client}

-- Numbers that are their own digits.
abbrev printf : Printf
printf = record { Int = Text; show = λ n. n; atoi = λ text. text }

abbrev token_of : Text → TokenMeta Text
token_of id = record {
  token_id = id;
  condition_id = codes "c";
  outcome = codes "YES";
  question = codes "Rain?";
  end_date = codes "2026-03-05";
  active = true;
  taker_fee_bps = codes "25";
}

abbrev known : List (TokenMeta Text)
known = token_of (codes "1") ∷ []

abbrev cycle : Cycle Text
cycle = record {
  fresh = token_of (codes "2") ∷ known;
  now = 9000;
  file_now = 9000;
  cutoff = codes "2026-01-01";
  append_opens = true;
  prune_opens = true;
  prune_renames = true;
}

abbrev csv : Disk
csv = record { csv = some (codes "asset_id\n1,c\n"); tmp = none }

rediscover_loop-boot-Follows_example :
    Follows printf [] 7
      (ids (subscribe_set [] known))
      (boot printf [] 7 true true 0 known csv [])
      (rediscover_loop printf [] 7 (cycle ∷ cycle ∷ []) (boot printf [] 7 true true 0 known csv []))
      (wanted printf [] 7 (cycle ∷ cycle ∷ []))
rediscover_loop-boot-Follows_example =
    rediscover_loop-boot-Follows printf [] 7 (cycle ∷ cycle ∷ []) true true 0 known csv []

abbrev running : Harvester
running = record {
  client = new_client (codes "1" ∷ []);
  disk = csv;
  files = [];
  known_ids = codes "1" ∷ [];
  metadata_known = codes "1" ∷ [];
  retention_due = 0;
}

written : contents running.disk.csv ≢ []
written e = cc e

rediscover_loop-Gains_example :
    Gains printf running.disk running.metadata_known
      (rediscover_loop printf [] 0 (cycle ∷ cycle ∷ []) running).disk
      (rediscover_loop printf [] 0 (cycle ∷ cycle ∷ []) running).metadata_known
rediscover_loop-Gains_example = rediscover_loop-Gains printf [] (cycle ∷ cycle ∷ []) running written

abbrev journal : DataFile
journal = record {
  name = codes "btc.bin";
  is_regular_file = true;
  last_write_time = some 1;
  removable = true;
}

merged-IsCurrent_example :
    AllListed printf known (merged printf known (token_of (codes "9") ∷ []))
    × AllListed printf (token_of (codes "9") ∷ []) (merged printf known (token_of (codes "9") ∷ []))
    × All (IsCurrent printf known) (merged printf known (token_of (codes "9") ∷ []))
merged-IsCurrent_example = merged-IsCurrent printf known (token_of (codes "9") ∷ [])
