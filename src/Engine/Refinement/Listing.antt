-- ===== src/Engine/Refinement/Listing.antt =====
-- `list_objects` lists the keys of the map.
use wfl_db.Engine.Bucket.Scan.Keys.{
  at_least_one_pos, has_key-keys_of, IsValid, limited, keys_of-Ascending, is_some-json_of,
  ValidCells, All-map, cell_at_self, AllValid,
}
use wfl_db.Engine.Refinement.{opened}
use wfl_db.Engine.Storage.{list_objects}
use wfl_db.Engine.Effect.{Ends-pure, Ends, At}
use wfl_db.Engine.Invariant.{IsBucket}
use wfl_db.Engine.Bucket.Store.{Refs}
use wfl_db.Core.Types.{ContentHash}
use wfl_db.Core.BucketId.{BucketId}
use wfl_db.Core.Outcome.{ok}
use wfl_db.Engine.Objects.Listing.{
  has_key-listing, listing-Ascending, Ascending-ext, listing, is_some, has_key,
}
use wfl_db.Engine.Platform.{IsRange, View, Laws, Platform, cell_at}
use wfl_db.Engine.Bucket.Scan.{scan_prefix, max_results_of}
use wfl_db.Engine.Bucket.Scan.Range.{
  starts_with_meta, scan_items-eq-take, keys_of, cell_name, at_least_one,
}
use wfl_db.Engine.Bucket.{partition_name, StorageEngine, metadata_key}
use wfl_db.Engine.Objects.{lookup, Objects}
use wfl_db.Core.Key.{Key}
use wfl_db.Prelude.{
  length, ◌-◌, starts_with-str_leb, ◌++◌, lit, none, ◌∙◌, Bool-cases, inr, inl, ◌&&◌, arith,
  starts_with, Option-cases, [], true, some, ◌≡◌, str_leb, Bytes, All, Str, List, Option, ℕ,
}

module _ (platform : Platform) (laws : Laws platform) (engine : StorageEngine) (id : BucketId)
    (blob : ContentHash → Bytes) where
  open platform use {Db}

  module _ {objs : Objects} {leaked : Refs} {v : View}
      (b : IsBucket platform (partition_name id) blob objs leaked v) (valid : AllValid objs)
      (prefix : Str) (cells : List (Bytes × Bytes))
      (range : IsRange v (partition_name id) (lit "meta:" ++ prefix) cells) where
    self : All (λ c. cell_at c.0 cells ≡ some c.1) cells
    self = cell_at_self cells range.ascending

    range_above : All (λ c. str_leb (lit "meta:" ++ prefix) (cell_name c) ≡ true) cells
    range_above =
        All-map (λ c. cell_at c.0 cells ≡ some c.1)
          (λ c. str_leb (lit "meta:" ++ prefix) (cell_name c) ≡ true) cells
          (λ c e. ground (arith, e, range.cells_at c.0)) self

    range_valid : ValidCells cells
    range_valid =
        All-map (λ c. cell_at c.0 cells ≡ some c.1)
          (λ c. (key : Key) → c.0 ≡ metadata_key key → IsValid key) cells
          (λ c e key k. elim (Option-cases (lookup key objs)) [
            | inl none_there ↦
                let gone : v (partition_name id) c.0 ≡ none = rw k (b.metas key ∙ rw none_there) in
                ground (arith, gone, e, range.cells_at c.0)
            | inr (o, there) ↦ valid key o there
          ])
          self

    -- A key with the prefix has a cell in the range if it is in the map.
    in_map :
        (x : Key)
        → starts_with x.as_str prefix && is_some (cell_at (metadata_key x) cells)
          ≡ has_key x (listing prefix objs)
    in_map x = elim (Bool-cases (starts_with x.as_str prefix)) [
      | inl has ↦
          let above : str_leb (lit "meta:" ++ prefix) (metadata_key x) ≡ true =
            starts_with-str_leb (metadata_key x) (lit "meta:" ++ prefix)
              (unfold metadata_key in starts_with_meta prefix x.as_str ∙ has) in
          rw (has_key-listing x prefix objs, has, range.cells_at (metadata_key x), above, b.metas x)
            (is_some-json_of (lookup x objs))
      | inr lacks ↦ rw (has_key-listing x prefix objs, lacks)
    ]

    -- The keys of the range are those of the map.
    keys_of-eq-listing : keys_of prefix cells ≡ listing prefix objs
    keys_of-eq-listing =
        Ascending-ext (keys_of prefix cells) (listing prefix objs)
          (keys_of-Ascending prefix cells range.ascending) (listing-Ascending prefix objs b.unique)
          (λ x. has_key-keys_of x prefix cells range_valid ∙ in_map x)

  module _ {objs : Objects} {leaked : Refs} {v : View} (d : Db) (a : At platform laws d v)
      (b : IsBucket platform (partition_name id) blob objs leaked v) (valid : AllValid objs) where
    -- On a healthy keyspace whose bucket holds objects with valid keys, `list_objects` returns the
    -- keys of the objects that have the prefix, each once and by ascending name, up to the limit, or
    -- one if the limit is 0, and changes nothing.
    pub list_objects-Ends :
        (prefix : Str) (limit : Option ℕ)
        → Ends platform laws
            (list_objects platform engine id prefix limit d)
            (ok (limited limit (listing prefix objs)))
            v
    unfolding list_objects scan_prefix
    list_objects-Ends prefix limit =
        let s0 = opened platform laws engine id blob d a b in
        let (cells, ranged, range) =
          laws.range_law (partition_name id) (lit "meta:" ++ prefix) _ s0.state.healthy in
        let range_v = rw s0.state.reads at range in
        let scanned =
          scan_items-eq-take prefix (max_results_of limit) cells [] range_v.ascending
            (range_above b valid prefix cells range_v) (at_least_one_pos (max_results_of limit)) in
        let whole : at_least_one (max_results_of limit) - length {A = Key} []
            ≡ at_least_one (max_results_of limit) =
          omega arith in
        rw (s0.outcome, ranged, scanned, whole, keys_of-eq-listing b valid prefix cells range_v)
          (Ends-pure platform laws _ _ s0.state)
