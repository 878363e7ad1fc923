-- ===== src/Tests/Server.antt =====
-- The theorems about paths and requests.
use wfl_db.Server.Service.RoundTrip.{IsAddressable, http_get-put}
use wfl_db.Core.Types.{is_chunked}
use wfl_db.Tests.Storage.{
  cat-ShortKey, picture-Storable, picture_json, empty-IsBucket, blob, picture, cat, stamp, photos,
  small_engine,
}
use wfl_db.Core.Outcome.{ok, done, Answer}
use wfl_db.Server.ObjectPath.RoundTrip.{
  path_of-parse_object_path, parse_object_path-path_of, path_of,
}
use wfl_db.Tests.Memory.{At-memory, memory_laws, memory}
use wfl_db.Server.Simple.{answered}
use wfl_db.Engine.Refinement.{metadata_of}
use wfl_db.Server.Http.{Reply, respond, Request, Method}
use wfl_db.Server.ObjectPath.{parse_object_path}
use wfl_db.Core.Utf8.{chars?, chars}
use wfl_db.Core.BucketId
use wfl_db.Core.Key
use wfl_db.Server.Simple
use wfl_db.Server.Handlers
use wfl_db.Prelude.{refl, [], Bytes, all, ◌&&◌, ◌≡◌, starts_with, leb, lit, Bool, ℕ}

abbrev pub is_letter : ℕ → Bool
is_letter c = leb 97 c && leb c 122

photos-IsAddressable : IsAddressable memory memory_laws is_letter small_engine photos cat
unfolding BucketId.new Key.new BucketId.allowed Key.any_control Key.is_control chars chars?
    starts_with all
photos-IsAddressable = record {
  bucket_valid = refl;
  key_valid = refl;
  one_part = (refl, (refl, (refl, (refl, (refl, (refl, tt))))));
  not_rooted = refl;
  short = cat-ShortKey;
}

parse_object_path-path_of_example :
    parse_object_path is_letter (lit "/v1/photos/cat") ≡ done (photos, cat)
parse_object_path-path_of_example =
    parse_object_path-path_of is_letter photos cat photos-IsAddressable.bucket_valid
      photos-IsAddressable.key_valid photos-IsAddressable.one_part photos-IsAddressable.not_rooted

path_of-parse_object_path_example : lit "/v1/photos/cat" ≡ path_of photos.as_str cat.as_str
path_of-parse_object_path_example =
    path_of-parse_object_path is_letter (lit "/v1/photos/cat") photos cat
      parse_object_path-path_of_example

abbrev pub request : Method → Answer Bytes → Request
request method body = record { method = method; path = lit "/v1/photos/cat"; body = body }

http_get-put_example :
    let m = metadata_of memory small_engine stamp picture in
    let r =
      Simple.handle_request memory is_letter small_engine stamp
        (request Method.put (done picture))
        [] in
    (r.0 ≡ ok (respond 201 (Reply.stored photos cat m.size m.version (is_chunked m))))
    × ((Simple.handle_request memory is_letter small_engine stamp
          (request Method.get (done []))
          r.1).0
        ≡ ok (respond 200 (Reply.raw picture)))
http_get-put_example =
    http_get-put memory memory_laws is_letter small_engine blob [] (At-memory []) photos cat
      empty-IsBucket photos-IsAddressable stamp picture picture_json (done []) picture-Storable
