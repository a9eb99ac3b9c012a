-- ===== src/Lib.antt =====
-- Models of four crates of the repository, and what is proved of them.
--
-- The crates are the Lumberjack v2 transport (crates/ferro-lumberjack), the content-addressed blob
-- store (crates/ferro-blob-store), the Cargo registry (crates/ferro-cargo-registry-server) and the
-- OCI distribution server (crates/ferro-oci-server). The client of the first builds windows of
-- frames that its server decodes and acknowledges. The two registries keep their tarballs and
-- layers in a blob store, which they know by the trait `BlobStore`.
--
-- Lumberjack/Sequence  sequence.rs: 32-bit numbers that wrap around, and the tests on ACKs
-- Lumberjack/Frame     frame.rs: `FrameDecoder`, `feed`, `next_frame` and the `try_decode_*` methods
--   Frame/Wire         the frame types and the `encode_*` functions
--   Frame/View         what a decoder has not read yet, and each access to the buffer in these terms
--   Frame/Parse        the specification: a parser of unread bytes, without a decoder
--   Frame/Refine, Bounds, Stable, Feed, RoundTrip, Stream   the proofs about the decoder
-- Lumberjack/Server    server.rs: `read_window` and `read_and_ack`, with `record_event`,
--                      `consume_slot` and `check_declared_window` in Server/State; Server/Caps and
--                      Ends hold proofs
-- Lumberjack/Client    client.rs: `send_json`, `send_payload_once`, `reconnect`, `pick_host`,
--                      `build_window_payload`, and `ClientBuilder::connect` as `open_client`
-- Lumberjack/Delivery, Acked   the client against the server
-- Lumberjack/Zlib      the flate2 crate as a parameter, with what is relied on
-- Blob/Digest          digest.rs: `Digest::new`, `to_string`, `parse`; the hashes are a parameter;
--                      Digest/Texts says which texts are digests, Digest/Laws holds lemmas
-- Blob/Memory          memory.rs: `InMemoryBlobStore`; Blob/Interface is the trait of blob_store.rs
-- Cargo/Name           name.rs, and `extract_name_from_index_path` of handlers.rs
-- Cargo/Publish        publish.rs: `parse` and `encode`; serde_json is the parameter of Cargo/Json
-- Cargo/Index          index.rs: the records, `into_index_dep` and `into_index_entry`
-- Cargo/Registry       handlers.rs and router.rs: the state, and `handle_publish` up to the lock
--   Registry/Ingest    `handle_publish` from the lock on, `rollback_publish`, `handle_download`
--   Registry/Edit      `set_yanked` and `mutate_owners`
--   Registry/Read      `handle_sparse_index`, `serve_index`, `etag_matches`, and `render_lines` and
--                      `parse_lines` of index.rs
--   Registry/Runs      any sequence of the requests that change the state
--   Registry/Metadata  what the metadata of a crate says, without the handlers
--   Registry/Kept, Sound, Held, Checked, Added, Published, Edited, Read/Cached, Read/Lines
--                      the proofs about the handlers
-- Oci/Error            error.rs: the codes and their statuses
-- Oci/Name, Reference  reference.rs: names, tags and references; Name/Grammar is the regular
--                      expression, Name/Complete and Sound the two halves of the proof
-- Oci/Upload           upload.rs: `UploadState` and `ContentRange`
-- Oci/Registry         registry.rs: the state of `InMemoryRegistryMeta`
--   Registry/Sessions  the upload sessions
--   Registry/Manifests, Delete, Lists   put and read, delete, and the listings; Registry/Tables is
--                      about maps of maps
-- Oci/Server, Chunk, Push   router.rs and handlers/blob_upload.rs: the upload handlers
-- Oci/Traffic          upload requests that run at the same time
-- Oci/Listing          handlers/tags.rs and catalog.rs
-- Oci/Range, MediaType, Content, Manifest   handlers/manifest.rs and media_types.rs
-- Examples             runs and instances at concrete inputs
--
-- State. A method is a function of the state before that returns the state after. A decoder method
-- also returns an outcome: a frame, no frame, an error, or a panic, which stands for each `expect`
-- and slice that can fail. A handler of the Cargo registry holds the lock on the crates from its
-- checks to its answer, so it is one step. The upload handlers of the OCI server hold no lock
-- between their calls: each is a sequence of atomic calls, and what is said of any order of the
-- calls counts the orders that a mutex rules out too. Its manifest handlers change the registry in
-- one call. Maps are lists of pairs that are read by key only.
--
-- Numbers are natural; a word of 32 or 64 bits is a number below 2 ^ 32 or 2 ^ 64 and its
-- wrap-around and saturation are written out. `usize` has 64 bits. The length of a buffer is not
-- bounded, as memory is not modelled. The next owner id is not bounded either.
--
-- Fuel. The loops over frames have as fuel one round more than there are unread bytes; each round
-- takes at least six bytes, so the fuel is never used up. All other loops are structural.
--
-- Surroundings. What a socket returns is a list of reads; what a network does in an attempt is an
-- argument; `persist_locked` is the argument `save`, the error of a snapshot that was not written.
-- flate2, serde_json with the readers that it derives, sha2 with hex, and the regex of
-- `is_valid_semver` are parameters.
--
-- Not modelled: TLS, sockets and start-up; the filesystem store of fs.rs; the snapshots of
-- persist.rs and registry.rs; routing, headers and JSON bodies; the blob and referrer handlers of
-- the OCI server; the crates ferro-maven-layout and ferro-airflow-dag-parser.
pub mod Prelude
pub mod Lumberjack
pub mod Blob
pub mod Cargo
pub mod Oci
pub mod Examples
