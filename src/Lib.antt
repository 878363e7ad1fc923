-- ===== src/Lib.antt =====
-- wflDB is a key-object store: buckets of objects over the embedded database fjall, served over
-- HTTP. An object within a size threshold is stored inline; a larger one is cut into chunks that
-- are stored under their hashes and shared, with a reference count each.
--
-- The parts, with the paths from the repository's root:
--   Core: wfldb-core/src. Core/Outcome.antt has the errors of error.rs and the result of a call,
--     which is a value, an error, or a panic. BucketId, Key, Types, Version and Multipart are
--     types.rs. Core/Utf8.antt decodes the characters that the validators look at,
--     Core/LittleEndian.antt is the byte order, Core/Decimal.antt the digits of numbers.
--   Engine: wfldb-engine/src. Engine/Platform.antt is the interface to the libraries.
--     Engine/Bucket.antt is bucket.rs (put_small, put_large, get_small, get_metadata, get_chunk,
--     delete) with Engine/Bucket/Scan.antt (scan_prefix), each loop a recursive function over its
--     list and the body of the loop a function of its own. Engine/Storage.antt is storage.rs:
--     put_object, get_object, get_metadata (as object_metadata, since the bucket has a get_metadata
--     too), delete_object, list_objects, batch. The modules below Engine/Bucket follow the calls
--     through the cells of a partition; Engine/Objects.antt is the abstract view of a bucket, a map
--     from keys to objects; Engine/Invariant.antt says how cells represent such a map, and
--     Engine/Refinement and the modules below it relate the calls to the map. Engine/History.antt
--     is a sequence of calls. Engine/Faults.antt and the modules below it are about keyspaces on
--     which calls fail, Engine/Interleaving.antt and the modules below it about a call that runs
--     among others.
--   Net: wfldb-net/src. Net/Frame.antt and Net/Codec.antt are WireFrame and WireCodec of lib.rs,
--     Net/Limits.antt is validate_frame of protocol.rs and WireUtils of wire.rs, Net/Canonical.antt
--     is CanonicalRequest of protocol.rs. Net/Message.antt and the modules below it are
--     RequestMessage and ResponseMessage of lib.rs, over the interface to serde_json in
--     Net/Json.antt. Net/Client.antt is WireClient of wire.rs, over a stream, and Net/Metrics.antt
--     is WireMetrics.
--   Server: wfldb-server/src. Server/ObjectPath.antt is parse_object_path, Server/Simple.antt is
--     handle_request of simple_server_fixed.rs and, with the same code but for the types of hyper,
--     of simple_server.rs; Server/Body.antt has the texts that it formats, Server/Headers.antt the
--     headers, and Server/JsonText.antt the standard's text of a JSON object. Server/Handlers.antt
--     is handlers.rs with the responses of server.rs; Server/Service.antt puts the two side by
--     side. Server/Session.antt is a sequence of requests,
--     with what each asks of Storage.
--   Tests: keyspaces in memory that meet the laws of the platform, with and without faults, JSON
--     values in memory, and concrete runs.
-- The server parses a path to a bucket and a key and calls Storage; Storage routes by size to the
-- calls of Bucket; Bucket reads and writes the cells of one partition.
--
-- State and effects: the keyspace is passed explicitly. An action takes the keyspace and returns a
-- result and the keyspace after it, also where it fails, so that what was written before an error
-- stays. A bucket handle is a record of the bucket's id, the partition's name and the engine.
--
-- Parameters: fjall (open_partition, get, insert, remove, range, commit, persist), serde_json for
-- object metadata and for the messages, a stream to a peer, the floating-point numbers of the
-- averages, BLAKE3, the ULID library (time and text), the text of the time, and of the standard
-- library the Unicode tables (which characters are alphanumeric, and to_uppercase, to_lowercase and
-- trim) and from_utf8_lossy. The hypotheses about them are the fields of Laws in
-- Engine/Platform.antt: on a healthy keyspace the calls do not fail and read and write as a map
-- does, for a partition name of at most 255 bytes and keys of at most 65535 bytes, a range lists
-- the cells from a key on by ascending key, a hash is a list of at most 32 bytes, and metadata that
-- was serialised is read back. Those about JSON are the fields of JsonLaws in Net/Json.antt: a
-- value that was printed is parsed to itself, and indexing and the conversions return what was put
-- in. Where calls may fail, the hypotheses are the fields of Faults in Engine/Faults.antt: a call
-- that fails has no effect on what later calls read. That hashes do not collide is not assumed of
-- BLAKE3: a theorem that needs it says for its own data which chunk a hash stands for (blob). The
-- clock and the ULID generator are read once for each object that is written; what they give is a
-- Stamp argument.
--
-- Limits: fjall panics where a partition whose name is longer than 255 bytes is opened, or a key
-- longer than 65535 is written or removed, and no validation of the code prevents that. The laws
-- say nothing of such calls, so the theorems about a healthy keyspace are about buckets and keys
-- within the limits (Engine/Limits.antt): a name of at most 250 bytes, since the partition's name
-- is longer by five, and a key of at most 65530, since its cells have prefixes of five. Where calls
-- may fail, a theorem says what holds when the calls return.
--
-- Numbers and strings: u32 and u64 sums are written with their wrap-around, as a release build
-- computes them, and usize has 64 bits. Strings are their UTF-8 bytes. Fuel is used twice: in
-- chunks_fuel, with one unit for each byte of the data, of which each round takes at least one, and
-- in the decimal digits of a u64 (Core/Decimal.antt), with 20 units, since 2 ^ 64 has 20 digits.
-- The errors of serde_json and of input and output are kept as the texts that they display.
--
-- The abstract view has one ghost component, leaked: references that the chunk store still counts
-- for objects that were overwritten, or deleted in a batch. No code keeps it; it says what the code
-- leaves behind.
--
-- Not modelled: fjall's limit of 2 ^ 32 bytes on a value, the test utilities, the accept loops and
-- program starts, the opening of connections, and the client crate, whose operations are stubs. Of
-- concurrent calls one is modelled step by step, and the others run whole between its accesses to
-- the keyspace; each access by itself is atomic in fjall.
pub mod Prelude
pub mod Core
pub mod Engine
pub mod Net
pub mod Server
pub mod Tests
