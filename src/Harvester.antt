-- ===== src/Harvester.antt =====
-- src/harvester/main.cpp: the boot sequence up to the connection, the body of `rediscover_loop`, and
-- retention. `rediscover_loop` runs on a thread of its own; the client's other threads are in
-- Gateway/Client.antt. Signals, settings and the sleep between cycles are in Harvester/Life.antt. The
-- text of the cutoff's date (gmtime, snprintf) is a parameter. File times are in nanoseconds, and a
-- directory that cannot be listed is one without entries.
pub mod Subscribed
pub mod Appended
pub mod Files
pub mod Capture
pub mod Life
use polymarket_tickscope.Base.{
  ℕ, ◌+◌, ◌*◌, List, [], ◌∷◌, ◌++◌, Bool, true, false, not, ◌&&◌, ◌||◌, Option, none, some, map,
  ite, ltb, leb, if◌then◌else◌,
}
use polymarket_tickscope.Base.Text.{Text, codes, text_eq}
use polymarket_tickscope.Gateway.Metadata.{
  Printf, TokenMeta, Disk, is_known, is_empty, read_csv_tokens, merge_and_write_metadata_csv,
  append_new_metadata_csv, prune_metadata_csv,
}
use polymarket_tickscope.Gateway.Filter.{filter_by_question}
use polymarket_tickscope.Gateway.Client.{Client, new_client, subscribe}

-- An entry of the data directory. Its time cannot be read where it is `none`.
pub record DataFile : Type 0 where
  pub name : Text
  pub is_regular_file : Bool
  pub last_write_time : Option ℕ
  pub removable : Bool

unfoldable pub hour : ℕ
hour = 3600 * 1000000000

unfoldable pub is_metadata : Text → Bool
is_metadata name =
    ite (text_eq name (codes "market_metadata.csv")) true
      (ite (text_eq name (codes "market_metadata.csv.tmp")) true false)

-- Last written before the cutoff, which is so many days ago.
unfoldable pub is_old : ℕ → ℕ → Option ℕ → Bool
is_old now days none = false
is_old now days (some mtime) = ltb (mtime + hour * (24 * days)) now

-- Whether the loop removes the entry.
unfoldable pub is_removed : ℕ → ℕ → DataFile → Bool
is_removed now days entry =
    if not entry.is_regular_file
    then false
    else if is_metadata entry.name
    then false
    else if is_old now days entry.last_write_time
    then entry.removable
    else false

unfoldable pub prune_old_data_files : ℕ → ℕ → List DataFile → List DataFile
prune_old_data_files now days [] = []
prune_old_data_files now days (entry ∷ entries) =
    let rest = prune_old_data_files now days entries in
    if is_removed now days entry then rest else entry ∷ rest

-- `argv[1]`, or else the environment's variable, or else the default.
unfoldable pub resolve_data_dir : List Text → Option Text → Text
resolve_data_dir (program ∷ dir ∷ args) env = dir
resolve_data_dir (program ∷ []) (some (c ∷ cs)) = c ∷ cs
resolve_data_dir (program ∷ []) (some []) = codes "./data"
resolve_data_dir (program ∷ []) none = codes "./data"
resolve_data_dir [] (some (c ∷ cs)) = c ∷ cs
resolve_data_dir [] (some []) = codes "./data"
resolve_data_dir [] none = codes "./data"

-- `retention_due` is an hour after `last_retention`.
pub record Harvester : Type 0 where
  pub client : Client
  pub disk : Disk
  pub files : List DataFile
  pub known_ids : List Text
  pub metadata_known : List Text
  pub retention_due : ℕ

-- What a cycle meets: the tokens found, the clocks, the cutoff's date, and which files open.
pub record Cycle (Int : Type 0) : Type 0 where
  pub fresh : List (TokenMeta Int)
  pub now : ℕ
  pub file_now : ℕ
  pub cutoff : Text
  pub append_opens : Bool
  pub prune_opens : Bool
  pub prune_renames : Bool

module _ {Int : Type 0} where
  unfoldable pub ids : List (TokenMeta Int) → List Text
  ids [] = []
  ids (m ∷ ms) = m.token_id ∷ ids ms

  -- The tokens not known, each once, and the known ones afterwards.
  unfoldable pub diff : List (TokenMeta Int) → List Text → List Text × List Text
  diff [] known_ids = ([], known_ids)
  diff (m ∷ ms) known_ids =
      let more = diff ms (m.token_id ∷ known_ids) in
      let skipped = diff ms known_ids in
      if is_known m.token_id known_ids then skipped else (m.token_id ∷ more.0, more.1)

  unfoldable pub subscribe_set : Text → List (TokenMeta Int) → List (TokenMeta Int)
  subscribe_set filter_str tokens =
      if is_empty filter_str then tokens else filter_by_question tokens filter_str

  abbrev pub no_tokens : List (TokenMeta Int) → Bool
  no_tokens [] = true
  no_tokens (_ ∷ _) = false

module _ (printf : Printf) (filter_str : Text) (retention_days : ℕ) where
  open printf use {Int}

  -- At most once an hour.
  unfoldable pub retain : Cycle Int → Harvester → Harvester
  retain c h =
      if not (leb retention_days 0) && leb h.retention_due c.now
      then record h {
        retention_due = c.now + hour;
        files = prune_old_data_files c.file_now retention_days h.files;
        disk = (prune_metadata_csv printf c.prune_opens c.prune_renames c.cutoff h.disk).1;
      }
      else h

  -- The part of a cycle before retention.
  unfoldable pub discover : Cycle Int → Harvester → Harvester
  discover c h =
      let appended =
        append_new_metadata_csv printf c.append_opens c.fresh (h.disk, h.metadata_known) in
      let new = diff (subscribe_set filter_str c.fresh) h.known_ids in
      record h {
        disk = appended.0;
        metadata_known = appended.1;
        known_ids = new.1;
        client = subscribe new.0 h.client;
      }

  -- Without a token found, the rest of the cycle is left out.
  unfoldable pub rediscover : Cycle Int → Harvester → Harvester
  rediscover c h = if no_tokens c.fresh then h else retain c (discover c h)

  unfoldable pub rediscover_loop : List (Cycle Int) → Harvester → Harvester
  rediscover_loop [] h = h
  rediscover_loop (c ∷ cs) h = rediscover_loop cs (rediscover c h)

  -- The boot sequence, at a time, with the tokens found and the files there are.
  unfoldable pub boot : Bool → Bool → ℕ → List (TokenMeta Int) → Disk → List DataFile → Harvester
  boot opens renames now market_meta old files =
      let disk = merge_and_write_metadata_csv printf opens renames market_meta old in
      let subscribe_meta = subscribe_set filter_str market_meta in
      record {
        client = new_client (ids subscribe_meta);
        disk = disk;
        files = files;
        known_ids = ids subscribe_meta;
        metadata_known = ids (read_csv_tokens printf disk.csv);
        retention_due = now;
      }
