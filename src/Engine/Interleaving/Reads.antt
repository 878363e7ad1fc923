-- ===== src/Engine/Interleaving/Reads.antt =====
-- `get_object` among calls on other keys and other buckets.
use wfl_db.Engine.Limits.{ShortName}
use wfl_db.Engine.Interleaving.Meanwhile.{
  new-Returns, Rely, collect_chunks-Returns, There, turns, Returns-pure, Returns, Allowed,
  cell-Returns, Meanwhile,
}
use wfl_db.Engine.Interleaving.Spares.{lookup-after, Spares}
use wfl_db.Engine.Refinement.Metadata.{metadata_in}
use wfl_db.Engine.Storage.{get_large_object, get_object, read_object}
use wfl_db.Engine.Refinement.{contents, bucket_of}
use wfl_db.Engine.Effect.{At}
use wfl_db.Engine.Objects.{hashes, json_of, lookup, Object}
use wfl_db.Core.Key.{Key}
use wfl_db.Core.BucketId.{BucketId}
use wfl_db.Engine.Bucket.{
  data_key, metadata_key, get_small, get_metadata, partition_name, StorageEngine,
}
use wfl_db.Engine.Platform.{View, Laws, Platform}
use wfl_db.Engine.Faults.Readable.{IsBucket-Readable}
use wfl_db.Engine.History.{Command, Buckets, HoldsAll}
use wfl_db.Engine.Interleaving.{Others, shared}
use wfl_db.Core.Outcome.{done, ok, Outcome}
use wfl_db.Core.Types.{is_chunked, ContentHash}
use wfl_db.Prelude.{inr, ap, inl, Option-cases, some, refl, ◌≡◌, ◌∙◌, [], Option, Bytes, List, Str}

module _ (platform : Platform) (laws : Laws platform) (engine : StorageEngine)
    (blob : ContentHash → Bytes) (id : BucketId) (named : ShortName id) (key : Key)
    (x : Option Object) where
  open platform use {Db}

  abbrev p : Str
  p = partition_name id

  abbrev holding : Rely platform engine blob
  holding = record {
    Fine = Spares id key;
    Good = λ s. lookup key (s id).objects ≡ x;
    keep = λ c s h e. lookup-after platform engine blob id key c s h ∙ e;
  }

  abbrev Here : Db × Others Db → Type 0
  Here = Meanwhile platform laws engine blob id named holding

  abbrev Gives : {A : Type 0} → Outcome A × (Db × Others Db) → Outcome A → Type 0
  Gives = Returns platform laws engine blob id named holding

  get_metadata-Returns :
      (dx : Db × Others Db)
      → Here dx
      → ((o : Object) → x ≡ some o → platform.from_slice o.json ≡ done o.metadata)
      → Gives (get_metadata (shared platform) (bucket_of engine id) key dx) (ok (metadata_in x))
  unfolding get_metadata
  get_metadata-Returns dx m decodes =
      let r =
        cell-Returns platform laws engine blob id named holding (metadata_key key) (json_of x) dx m
          (λ s v e b. b.metas key ∙ ap json_of e) in
      elim (Option-cases x) [
        | inl e ↦
            rw (r.outcome, ap json_of e, ap metadata_in e)
              (Returns-pure platform laws engine blob id named holding _ _ r.still)
        | inr (o, e) ↦
            rw (r.outcome, ap json_of e, ap metadata_in e, decodes o e)
              (Returns-pure platform laws engine blob id named holding _ _ r.still)
      ]

  read_object-Returns :
      (dx : Db × Others Db)
      → Here dx
      → Gives
          (read_object (shared platform) (bucket_of engine id) key (metadata_in x) dx)
          (ok (contents blob x))
  unfolding read_object get_small get_large_object is_chunked
  read_object-Returns dx m = elim (Option-cases x) [
    | inl e ↦
        rw (ap metadata_in e, ap (contents blob) e)
          (Returns-pure platform laws engine blob id named holding _ dx m)
    | inr (o, e) ↦ elim (Option-cases o.metadata.chunk_manifest) [
      | inl inline ↦
          let r =
            cell-Returns platform laws engine blob id named holding (data_key key) (some o.inline)
              dx m (λ s v l b. b.bodies key o (l ∙ e) inline) in
          rw (ap metadata_in e, ap (contents blob) e, inline) r
      | inr (n, chunked) ↦
          let there : There platform laws engine blob id named holding n.chunks = λ s v l b.
            let stored = (IsBucket-Readable platform p blob b).stored key o (l ∙ e) in
            rw (chunked, hashes) at stored in
          let r =
            collect_chunks-Returns platform laws engine blob id named holding n.chunks [] dx m
              there in
          rw (ap metadata_in e, ap (contents blob) e, chunked, r.outcome)
            (Returns-pure platform laws engine blob id named holding _ _ r.still)
    ]
  ]

  get_object-Returns :
      (dx : Db × Others Db)
      → Here dx
      → ((o : Object) → x ≡ some o → platform.from_slice o.json ≡ done o.metadata)
      → Gives (get_object (shared platform) engine id key dx) (ok (contents blob x))
  unfolding get_object
  get_object-Returns dx m decodes =
      let r0 = new-Returns platform laws engine blob id named holding dx m in
      let r1 = get_metadata-Returns _ r0.still decodes in
      let r2 = read_object-Returns _ r1.still in rw (r0.outcome, r1.outcome) r2

module _ (platform : Platform) (laws : Laws platform) (engine : StorageEngine)
    (blob : ContentHash → Bytes) where
  open platform use {Db}

  -- On a healthy keyspace that holds a map of objects in every bucket with a name of at most 250
  -- bytes, for a bucket whose name is within the limits, while other calls run between any two of
  -- its accesses, whole calls that have their preconditions one after another and do not write its
  -- key, `get_object` returns what the map has for the key.
  pub get_object-shared :
      (id : BucketId) (key : Key) (css : List (List Command)) {s : Buckets} {v : View} (d : Db)
      → ShortName id
      → At platform laws d v
      → HoldsAll platform engine blob s v
      → Allowed platform engine blob (Spares id key) css s
      → (get_object (shared platform) engine id key (d, turns platform engine css)).0
        ≡ ok (contents blob (lookup key (s id).objects))
  get_object-shared id key css {s} {v} d named a h allowed =
      (get_object-Returns platform laws engine blob id named key (lookup key (s id).objects) _
        (record {
          contents_now = s;
          view = v;
          css = css;
          state = a;
          holds = h;
          others = refl;
          allowed = allowed;
          good = refl;
        })
        (λ o e. ((h.buckets id named).sound key o e).decodes)).outcome
