-- ===== src/Engine/History.antt =====
-- Calls of `Storage`, one after another, over all buckets: what runs, and what it is meant to do.
pub mod Step
use wfl_db.Engine.Limits.{ShortKey, ShortName}
use wfl_db.Engine.Objects.Listing.{listing}
use wfl_db.Engine.Bucket.Store.{count}
use wfl_db.Engine.Invariant.{IsBucket}
use wfl_db.Engine.Refinement.Put.{Storable}
use wfl_db.Engine.Bucket.Scan.Keys.{limited, AllValid, IsValid}
use wfl_db.Engine.Refinement.{contents, object_of, metadata_of}
use wfl_db.Engine.Objects.{without, hashes_of, refs_of, lookup, assign}
use wfl_db.Engine.Storage.{
  batch, list_objects, delete_object, object_metadata, get_object, put_object,
}
use wfl_db.Engine.Bucket.{partition_name, StorageEngine}
use wfl_db.Engine.Refinement.Operations.{
  KeysShort, result_of, run_ops, AllSerialise, answer_or_empty, Contents,
}
use wfl_db.Core.Key.{Key}
use wfl_db.Engine.Platform.{View, Platform}
use wfl_db.Core.Outcome.{Outcome, Exec}
use wfl_db.Core.BucketId.{BucketId}
use wfl_db.Core.Types.{BatchOperation, BatchResult, ContentHash, ObjectMetadata, Stamp}
use wfl_db.Engine.Refinement.Metadata.{metadata_in}
use wfl_db.Core.Outcome.{◌>>=◌, pure}
use wfl_db.Prelude.{
  map, ◌^◌, ◌<◌, ◌+◌, [], ◌∷◌, bytes_eq, Str, List, if◌then◌else◌, Bytes, Option, ℕ,
}

pub data Command : Type 0 where
  put : Stamp → BucketId → Key → Bytes → Command
  get : BucketId → Key → Command
  describe : BucketId → Key → Command
  delete : BucketId → Key → Command
  list : BucketId → Str → Option ℕ → Command
  run_batch : (ℕ → Stamp) → BucketId → List BatchOperation → Command

pub data Reply : Type 0 where
  stored : ObjectMetadata → Reply
  found : Option Bytes → Reply
  described : Option ObjectMetadata → Reply
  deleted : Reply
  listed : List Key → Reply
  ran : List BatchResult → Reply

-- The contents of every bucket.
abbrev pub Buckets : Type 0
Buckets = BucketId → Contents

abbrev pub update : BucketId → Contents → Buckets → Buckets
update id c s j = if bytes_eq id.as_str j.as_str then c else s j

abbrev pub reply_with : {D A : Type 0} → (A → Reply) → Exec D A → Exec D Reply
reply_with f m = do a ← m; pure (f a)

module _ (platform : Platform) (engine : StorageEngine) where
  open platform use {Db}

  unfoldable pub run : Command → Exec Db Reply
  run (put stamp id key bytes) = reply_with stored (put_object platform stamp engine id key bytes)
  run (get id key) = reply_with found (get_object platform engine id key)
  run (describe id key) = reply_with described (object_metadata platform engine id key)
  run (delete id key) = reply_with (λ _. deleted) (delete_object platform engine id key)
  run (list id prefix limit) = reply_with listed (list_objects platform engine id prefix limit)
  run (run_batch clock id ops) = reply_with ran (batch platform clock engine id ops)

  -- A client goes on after an error.
  abbrev pub run_all : List Command → Db → List (Outcome Reply) × Db
  run_all [] d = ([], d)
  run_all (c ∷ cs) d = let (r, d1) = run c d in let (rs, d2) = run_all cs d1 in (r ∷ rs, d2)

module _ (platform : Platform) (engine : StorageEngine) (blob : ContentHash → Bytes) where
  -- The contents after a call. An object that is put leaks the chunks of the one it replaces.
  abbrev pub after : Command → Buckets → Buckets
  after (put stamp id key bytes) s =
      update id
        (record {
          objects =
              assign key
                (object_of (metadata_of platform engine stamp bytes)
                  (answer_or_empty (platform.to_vec (metadata_of platform engine stamp bytes)))
                  bytes)
                (s id).objects;
          leaked = λ g. (s id).leaked g + count g (hashes_of (lookup key (s id).objects));
        })
        s
  after (get id key) s = s
  after (describe id key) s = s
  after (delete id key) s =
      update id (record { objects = without key (s id).objects; leaked = (s id).leaked }) s
  after (list id prefix limit) s = s
  after (run_batch clock id ops) s = update id (run_ops platform engine clock 0 ops (s id)) s

  abbrev pub reply : Command → Buckets → Reply
  reply (put stamp id key bytes) s = stored (metadata_of platform engine stamp bytes)
  reply (get id key) s = found (contents blob (lookup key (s id).objects))
  reply (describe id key) s = described (metadata_in (lookup key (s id).objects))
  reply (delete id key) s = deleted
  reply (list id prefix limit) s = listed (limited limit (listing prefix (s id).objects))
  reply (run_batch clock id ops) s = ran (map (result_of platform engine) ops)

  abbrev pub ValidPuts : List BatchOperation → Type 0
  ValidPuts [] = Unit
  ValidPuts (BatchOperation.put key bytes ∷ ops) = IsValid key × ValidPuts ops
  ValidPuts (BatchOperation.delete key ∷ ops) = ValidPuts ops

  -- The names and keys that a call writes are within the limits.
  abbrev pub Within : Command → Type 0
  Within (put stamp id key bytes) = ShortName id × ShortKey key
  Within (get id key) = ShortName id
  Within (describe id key) = ShortName id
  Within (delete id key) = ShortName id × ShortKey key
  Within (list id prefix limit) = ShortName id
  Within (run_batch clock id ops) = ShortName id × KeysShort ops

  -- What a call asks for besides: valid keys, data that can be stored, reference counts within 32 bits.
  abbrev pub Needs : Command → Buckets → Type 0
  Needs (put stamp id key bytes) s =
      IsValid key
      × Storable platform engine blob (s id).objects (s id).leaked stamp bytes
          (answer_or_empty (platform.to_vec (metadata_of platform engine stamp bytes)))
  Needs (get id key) s = Unit
  Needs (describe id key) s = Unit
  Needs (delete id key) s = (g : ContentHash) → refs_of (s id).objects g + (s id).leaked g < 2 ^ 32
  Needs (list id prefix limit) s = Unit
  Needs (run_batch clock id ops) s = ValidPuts ops × AllSerialise platform engine clock 0 ops

  abbrev pub Fits : Command → Buckets → Type 0
  Fits c s = Within c × Needs c s

  abbrev pub AllFit : List Command → Buckets → Type 0
  AllFit [] s = Unit
  AllFit (c ∷ cs) s = Fits c s × AllFit cs (after c s)

  abbrev pub replies : List Command → Buckets → List Reply
  replies [] s = []
  replies (c ∷ cs) s = reply c s ∷ replies cs (after c s)

  abbrev pub after_all : List Command → Buckets → Buckets
  after_all [] s = s
  after_all (c ∷ cs) s = after_all cs (after c s)

  -- The keyspace holds the contents of every bucket whose name is within the limits.
  pub record HoldsAll (s : Buckets) (v : View) : Type 0 where
    pub buckets :
        (id : BucketId)
        → ShortName id
        → IsBucket platform (partition_name id) blob (s id).objects (s id).leaked v
    pub valid : (id : BucketId) → AllValid (s id).objects
