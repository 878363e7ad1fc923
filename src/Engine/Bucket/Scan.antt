-- ===== src/Engine/Bucket/Scan.antt =====
-- `scan_prefix` of wfldb-engine/src/bucket.rs.
pub mod Range
pub mod Keys
use wfl_db.Core.Outcome.{panic, done, storage, failed, err}
use wfl_db.Core.Utf8.{from_utf8}
use wfl_db.Engine.Bucket.{ok, Exec, Answer, Outcome, Bucket}
use wfl_db.Core.Key.{has_prefix, Key}
use wfl_db.Engine.Platform.{Platform}
use wfl_db.Prelude.{
  starts_with, ◌&&◌, false, [], length, ◌==◌, true, ◌∷◌, ◌++◌, leb, if◌then◌else◌, lit, none, ◌-◌,
  some, ◌^◌, Bytes, Option, List, Bool, Str, ℕ,
}
use wfl_db.Core.Key

-- `strip_prefix("meta:")`
abbrev pub strip_meta : Str → Option Str
strip_meta (a ∷ b ∷ c ∷ d ∷ e ∷ s) =
    if a == b'm' && (b == b'e' && (c == b't' && (d == b'a' && e == b':'))) then some s else none
strip_meta _ = none

abbrev pub key_if : Bool → Key → Option Key
key_if true key = some key
key_if false key = none

-- The key of a metadata cell, if it is one with the prefix: the four nested tests of the loop.
unfoldable pub listed_key : Str → Bytes → Option Key
listed_key prefix key_bytes = elim (from_utf8 key_bytes) [
  | none ↦ none
  | some key_str ↦ elim (strip_meta key_str) [
    | none ↦ none
    | some actual_key ↦ elim (Key.new actual_key) [
      | ok key ↦ key_if (has_prefix key prefix) key
      | err e ↦ none
      | panic ↦ none
    ]
  ]
]

-- A key is found, and the test of the limit after it.
abbrev pub push_key :
    ℕ → (List Key → Outcome (List Key)) → List Key → Option Key → Outcome (List Key)
push_key max_results continue keys none = continue keys
push_key max_results continue keys (some key) =
    if leb max_results (length (keys ++ key ∷ []))
    then ok (keys ++ key ∷ [])
    else continue (keys ++ key ∷ [])

-- The loop over the items of the range.
unfoldable pub scan_items :
    Str → Bytes → ℕ → List (Answer (Bytes × Bytes)) → List Key → Outcome (List Key)
scan_items prefix prefix_bytes max_results [] keys = ok keys
scan_items prefix prefix_bytes max_results (failed e ∷ items) keys =
    err (storage (lit "Scan error: " ++ e))
scan_items prefix prefix_bytes max_results (done (key_bytes, value) ∷ items) keys =
    let continue = scan_items prefix prefix_bytes max_results items in
    if starts_with key_bytes prefix_bytes
    then push_key max_results continue keys (listed_key prefix key_bytes)
    else ok keys

-- `limit.unwrap_or(usize::MAX)`
abbrev pub max_results_of : Option ℕ → ℕ
max_results_of none = 2 ^ 64 - 1
max_results_of (some n) = n

module _ (platform : Platform) where
  open platform use {Db, range_from}

  unfoldable pub scan_prefix : Bucket → Str → Option ℕ → Exec Db (List Key)
  scan_prefix b prefix limit d =
      let prefix_bytes = lit "meta:" ++ prefix in
      (
        scan_items prefix prefix_bytes (max_results_of limit)
            (range_from b.main_partition prefix_bytes d) [],
        d,
      )
