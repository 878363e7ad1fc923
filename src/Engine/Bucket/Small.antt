-- ===== src/Engine/Bucket/Small.antt =====
-- `put_small` and `get_small` on a healthy keyspace.
use wfl_db.Engine.Limits.{data_key-KeyFits, metadata_key-KeyFits, ShortKey}
use wfl_db.Prelude.{◌≤◌, ◌≡◌, some, Bytes, length, le→ltb}
use wfl_db.Core.Outcome.{ok}
use wfl_db.Core.Key.{Key}
use wfl_db.Core.Types.{Stamp, new_inline}
use wfl_db.Engine.Platform.{Platform, Laws, View, write, done}
use wfl_db.Engine.Effect.{At, Ends, insert-Ends, persist-Ends, Ends-pure}
use wfl_db.Engine.Bucket.{Bucket, metadata_key, data_key, put_small}

module _ (platform : Platform) (laws : Laws platform) where
  open platform use {Db, hash, to_vec}

  pub put_small-Ends :
      (stamp : Stamp) (b : Bucket) (key : Key) (bytes json : Bytes) (d : Db) {v : View}
      → ShortKey key
      → At platform laws d v
      → length bytes ≤ b.engine.value_threshold
      → to_vec (new_inline stamp (length bytes) (hash bytes)) ≡ done json
      → Ends platform laws
          (put_small platform stamp b key bytes d)
          (ok (new_inline stamp (length bytes) (hash bytes)))
          (write b.main_partition
            (data_key key)
            (some bytes)
            (write b.main_partition (metadata_key key) (some json) v))
  unfolding put_small
  put_small-Ends stamp b key bytes json d short a fits serialised =
      let p = b.main_partition in
      let s1 =
        insert-Ends platform laws p (metadata_key key) json d (metadata_key-KeyFits key short) a in
      let s2 =
        insert-Ends platform laws p (data_key key) bytes _ (data_key-KeyFits key short) s1.state in
      let s3 = persist-Ends platform laws _ s2.state in
      rw
        (
          le→ltb b.engine.value_threshold (length bytes) fits,
          serialised,
          s1.outcome,
          s2.outcome,
          s3.outcome,
        )
        (Ends-pure platform laws _ _ s3.state)
