-- ===== src/Engine/Faults/Small.antt =====
-- `put_object` of a small object when calls may fail: its two cells are written one after the other.
use wfl_db.Engine.Bucket.Cells.{cell_laws}
use wfl_db.Engine.Faults.Get.{Returns-pure, Returns-get, Returns-bind, Returns, new-Triple}
use wfl_db.Engine.Storage.{read_object, get_object, put_object}
use wfl_db.Core.Key.{Key}
use wfl_db.Core.Types.{is_chunked, new_inline, ObjectMetadata, Stamp}
use wfl_db.Engine.Refinement.{inline_metadata, bucket_of}
use wfl_db.Core.BucketId.{BucketId}
use wfl_db.Engine.Bucket.{
  get_small, get_metadata, data_key, metadata_key, put_small, partition_name, Bucket, StorageEngine,
}
use wfl_db.Engine.Faults.{
  Result, Triple-pure, Triple-persist, Triple-insert, Triple-bind, Triple, Faults,
}
use wfl_db.Engine.Platform.{call, write, View, Platform}
use wfl_db.Engine.Bucket
use wfl_db.Core.Outcome.{done}
use wfl_db.Prelude.{refl, le→leb, inr, inl, le→ltb, some, ◌⊎◌, ◌≡◌, ◌≤◌, length, Bytes, Str}

module _ (platform : Platform) (faults : Faults platform) (engine : StorageEngine)
    (id : BucketId) where
  open platform use {Db, hash, to_vec}

  abbrev q0 : Str
  q0 = partition_name id

  abbrev b0 : Bucket
  b0 = bucket_of engine id

  module _ (v : View) (stamp : Stamp) (key : Key) (bytes json : Bytes)
      (fits : length bytes ≤ engine.value_threshold)
      (serialised : to_vec (inline_metadata platform stamp bytes) ≡ done json) where
    -- Between the two writes: the metadata is the new one, the data the old one.
    abbrev pub torn : View
    torn = write q0 (metadata_key key) (some json) v

    abbrev pub written : View
    written = write q0 (data_key key) (some bytes) torn

    abbrev pub Stages : View → Type 0
    Stages w = (w ≡ v) ⊎ ((w ≡ torn) ⊎ (w ≡ written))

    abbrev pub Done : ObjectMetadata → View → Type 0
    Done m w = (m ≡ inline_metadata platform stamp bytes) × (w ≡ written)

    put_small-Stages : Triple platform faults (put_small platform stamp b0 key bytes) v Done Stages
    unfolding put_small new_inline
    put_small-Stages =
        rw (le→ltb engine.value_threshold (length bytes) fits, serialised)
          (Triple-bind platform faults (λ _ w. w ≡ torn) Done Stages
            (call (platform.insert q0 (metadata_key key) json)) _ v
            (Triple-insert platform faults Stages _ q0 (metadata_key key) json v refl (inl refl))
            (λ _ w q. rw q (
              Triple-bind platform faults (λ _ w'. w' ≡ written) Done Stages
                (call (platform.insert q0 (data_key key) bytes)) _ torn
                (Triple-insert platform faults Stages _ q0 (data_key key) bytes torn refl
                  (inr (inl refl)))
                (λ _ w' q'. rw q' (
                  Triple-bind platform faults (λ _ u. u ≡ written) Done Stages
                    (call platform.persist) _ written
                    (Triple-persist platform faults Stages _ written refl (inr (inr refl)))
                    (λ _ u q''.
                      rw q'' (Triple-pure platform faults Done Stages _ written (refl, refl))))))))

    put_object-Stages :
        Triple platform faults (put_object platform stamp engine id key bytes) v Done Stages
    unfolding put_object Bucket.new
    put_object-Stages =
        Triple-bind platform faults (λ b w. (b ≡ b0) × (w ≡ v)) Done Stages
          (Bucket.new platform engine id) _ v
          (new-Triple platform faults engine id Stages v (inl refl))
          (λ b w q.
            rw (le→leb (length bytes) engine.value_threshold fits, q.0, q.1) put_small-Stages)

    get_metadata_torn :
        Returns platform faults engine id
          (get_metadata platform b0 key)
          torn
          (some (inline_metadata platform stamp bytes))
    unfolding get_metadata
    get_metadata_torn =
        Returns-bind platform faults engine id (call (platform.get q0 (metadata_key key))) _ torn
          (some json) _ (rw here at (Returns-get platform faults engine id (metadata_key key) torn))
          (rw (faults.from_slice-to_vec _ json serialised) (
            Returns-pure platform faults engine id (some (inline_metadata platform stamp bytes))
              torn))
      where
        here : torn q0 (metadata_key key) ≡ some json
        here = simp cell_laws

    get_object_torn :
        Returns platform faults engine id
          (get_object platform engine id key)
          torn
          (v q0 (data_key key))
    unfolding get_object read_object get_small is_chunked new_inline
    get_object_torn =
        Returns-bind platform faults engine id (Bucket.new platform engine id) _ torn b0 _
          (new-Triple platform faults engine id (λ w. w ≡ torn) torn refl)
          (Returns-bind platform faults engine id (get_metadata platform b0 key) _ torn
            (some (inline_metadata platform stamp bytes)) _ get_metadata_torn
            (rw here at (Returns-get platform faults engine id (data_key key) torn)))
      where
        here : torn q0 (data_key key) ≡ v q0 (data_key key)
        here = simp cell_laws

  -- `put_object` of data within the threshold whose metadata can be serialised, when any of its
  -- calls may fail: a success leaves both cells written; an error or a panic leaves none of them
  -- written, the metadata alone, or both. On a keyspace with the metadata alone, `get_object`
  -- returns what the data cell held before, or fails.
  pub put_object-torn :
      (stamp : Stamp) (key : Key) (bytes json : Bytes) (d d' : Db)
      (fits : length bytes ≤ engine.value_threshold)
      (serialised : to_vec (inline_metadata platform stamp bytes) ≡ done json)
      → faults.view d' ≡ torn (faults.view d) stamp key bytes json fits serialised
      → Result
          (Done (faults.view d) stamp key bytes json fits serialised)
          (Stages (faults.view d) stamp key bytes json fits serialised)
          (put_object platform stamp engine id key bytes d).0
          (faults.view (put_object platform stamp engine id key bytes d).1)
        × Result
            (λ x w. (x ≡ faults.view d q0 (data_key key)) × (w ≡ faults.view d'))
            (λ w. w ≡ faults.view d')
            (get_object platform engine id key d').0
            (faults.view (get_object platform engine id key d').1)
  put_object-torn stamp key bytes json d d' fits serialised e = (
    put_object-Stages (faults.view d) stamp key bytes json fits serialised d refl,
    rw e (get_object_torn (faults.view d) stamp key bytes json fits serialised d' e),
  )
