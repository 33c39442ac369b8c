-- ===== src/Lib.antt =====
-- Verification of openstack, an emulator of AWS services in Rust.
--
-- The program is a gateway that finds the service of a request, a manager that starts that
-- service's provider on its first request, and one provider per service. A provider keeps one
-- store per account and region and turns a request into a response.
--
-- Parts and files:
--   Prelude     operations of Rust's standard library on the types of the model (Tests, Lists,
--               Maps, Text, Format, Numbered) and their lemmas
--   Framework   crates/service-framework/src: Json is `serde_json::Value` with its accessors,
--               Traits the request, response and error types of traits.rs, Lifecycle is lifecycle.rs,
--               Container is container.rs with the threads that share a container;
--               Service is what the providers of the JSON protocol have in common: their responses,
--               their `match` and the guards that an operation takes on its tenant's store
--   State       crates/state/src: Scoping is scoping.rs (the combined key), Bundle is bundle.rs
--               (the stores of all accounts and regions)
--   Sqs         crates/services/sqs/src: Ids, Message, Queue and Store are store.rs; Params, Xml,
--               Handlers, JsonHandlers and Provider are provider.rs
--   Gateway     crates/gateway/src: PortAllocator is port_allocator.rs
--   Ssm         crates/services/ssm/src: Store is store.rs, Requests and Provider are provider.rs
--   SecretsManager  crates/services/secretsmanager/src: Store is store.rs; Provider the operations
--               GetSecretValue, PutSecretValue and UpdateSecret of provider.rs, Management the
--               others with `dispatch`, and Management.Listing is about the cache of ListSecrets
--   Kinesis     crates/services/kinesis/src: Store is store.rs; Shards and Handlers are the arms of
--               `dispatch` in provider.rs, and Provider its `match`. Invariant is about the streams,
--               Reading about the iterators
--   Kms         crates/services/kms/src: Store is store.rs; Handlers are the arms of `dispatch` in
--               provider.rs, and Provider its `match`. Invariant and Keys are about the store, Answers
--               about responses, Random about the random texts
--   Sns         crates/services/sns/src: Store is store.rs, with the attributes that provider.rs
--               sets, and Handlers are handlers of provider.rs; Topics is about the store, Filters
--               about filter policies
--
-- State and operations: a Rust struct is a record with its fields, an enum a data type, a
-- `HashMap` a `Dict` (an association list that `insert` updates in place), a `VecDeque` a list.
-- A `&mut self` method returns what it leaves. The order of a `HashMap` is not specified by Rust;
-- the model walks a `Dict` from front to back. A global counter is a number that is passed in and comes back.
--
-- Concurrency: a container and the port counter are shared by threads. A thread is at one of the
-- places between which others may run, `advance` is its next step, and a run is any sequence of
-- steps of any threads. A step under a lock is whole, since no other thread sees the middle of it.
--
-- Parameters: `md5_hex` is the digest of the `md5` crate, `from_str` the parser of `serde_json`;
-- no theorem assumes anything of them. The stream service's `Runtime` holds the coders of base64
-- and `serde_json` for the state of an iterator, of which `IsLawful` says that they decode what
-- they encode, the hash of `DefaultHasher`, and `panicked` for a request whose handler panics. A
-- release build aborts on a panic, so that there `panicked` is no answer but the end of the
-- process, and what follows it in a sequence of requests stands for no run of it. The key
-- service's `Runtime` holds base64, UTF-8, hexadecimal text, HMAC-SHA256 and the dates of
-- `chrono` in the same way, and `Fresh` the time and the random ids of a request. `from_json` of
-- the topic service is its parser of filter policies, a `serde_json` call. The clock is read
-- once per handler, as `now`, in nanoseconds, and an id that `Uuid::new_v4` makes is an
-- argument. Counters, counts and the `i32` indices of the loops over parameters wrap round as in
-- a release build. A JSON response keeps the value that `serde_json` prints, not its text.
--
-- Fuel: the loops over indexed parameters (`Prefix.1.Name`, `Prefix.2.Name`, ...) run on `length
-- params + 1`, since every round that goes on needs a parameter of its own as long as the index
-- stays below 2 ^ 31; the loop of `rand_hex` runs on the number of its bytes, since every round
-- makes at least one.
--
-- Not modelled: publishing and `dispatch` of the topic service, the parsing of the request body
-- into parameters (`parse_params`, `url_decode`, `apply_transport_compat`), logging, the storage
-- snapshots, locks of the concurrent maps (a request works on the store alone while it holds its
-- guard), and all crates not listed above.
pub mod Prelude
pub mod Framework
pub mod State
pub mod Gateway
pub mod Sqs
pub mod Ssm
pub mod SecretsManager
pub mod Kinesis
pub mod Kms
pub mod Sns
