-- ===== src/Lib.antt =====
-- kvpack: content-addressed packs of key/value cache state, their local store, and the live handoff
-- of such state between two processes.
--
-- The parts and how they interact. crates/kvpack-core defines the wire formats: a chunk's plaintext
-- is wrapped in a codec frame (chunk.rs), raw or run-length encoded, and descriptors are written and
-- read with one canonical encoder and decoder (canonical.rs); a transform descriptor (transform.rs)
-- names the repack ops that bring an engine's layout to the canonical one, and transform/exec.rs runs
-- them on planes. crates/kvpack keeps the objects in a local store; its TinyLFU policy
-- (store/policy.rs) decides what is admitted and what is evicted, by a score of the retention inputs
-- and a frequency sketch, and store/policy/replay.rs replays traces under several policies.
-- crates/kvpack-handoff streams layers over several connections; a mux (receiver/spray.rs) puts the
-- frames back in order, and a permit pool (coordinator.rs) bounds the layers in flight.
--
-- The files.
--   Base             shared: tests, lists, results, bytes, bits, maps as sorted association lists.
--   Core/Error, Core/Wire    crates/kvpack-core/src/error.rs and consts.rs.
--   Core/Codec       crates/kvpack-core/src/chunk.rs: encode_codec_frame, decode_codec_frame and
--                    their helpers; children: the runs, the encoder's bound, the round trip, frames.
--   Core/Canonical   crates/kvpack-core/src/canonical.rs: Encoder and Decoder; children Reading and
--                    Inverting hold the rules by which readers of formats are composed in proofs.
--   Core/Transform   crates/kvpack-core/src/transform.rs: ops and descriptors; Decode and Descriptor
--                    hold the readers; Exec is crates/kvpack-core/src/transform/exec.rs.
--   Store/Retention  crates/kvpack/src/store/policy.rs and policy/replay.rs: inputs, score, flushes.
--   Store/Policy     the same files: TinyLfuPolicy. Access: the accesses; Admission: the decisions,
--                    the victim and the pending accesses; Simulation: replay_tinylfu.
--   Store/Replay     crates/kvpack/src/store/policy/replay.rs: ReplayState; Victim: victim, remove
--                    and make_room; Room and Ends: its end; Trace: replay_cache_policy; Outcomes,
--                    Running and Total: what a replay records.
--   Core/Half        crates/kvpack-core/src/half.rs: the conversions of half precision on bit patterns;
--                    children Nearest and RoundTrip.
--   Handoff          crates/kvpack-handoff/src/error.rs; Mux: SequenceMuxV1 of receiver/spray.rs;
--                    Permits: LayerPermitPoolV1 of coordinator.rs.
--   Handoff/Interrupt  crates/kvpack-handoff/src/receiver/interrupt.rs: ReceiverInterruptV1 and the
--                    steps of the threads that share it; children Cover and Reason.
--   Handoff/Manifest crates/kvpack-handoff/src/manifest.rs: the manifests, their validation and the
--                    digests of a layout table; children Layout, Table, Headers, Validation, Checked,
--                    Walk and Bounds.
--   Handoff/Mac      the message authentication of the manifests. Handoff/Verify: the incremental
--                    verifier; Stream and Fed: the planes it accepts; Seal: the seals it accepts.
--   Handoff/Bundle   the stager of a bundle's files; Files: those files and the documented file
--                    system. Handoff/Coordinator: StreamingCoordinatorV1 of coordinator.rs. Safe and
--                    Publication are about the stream, the two Stored about the files.
--   Capacity         the capacity plan of the production profile; children Scaling, Objects, Rates
--                    and Plan.
--   Core/Tests, Store/Tests, Handoff/Tests, Handoff/TransferTests, Handoff/PublicationTests,
--   Capacity/Tests   the theorems at concrete inputs.
--
-- Conventions. A method of `&mut self` returns the new state; an error is a value of `Result`. An
-- unsigned integer is a natural number with its saturation, wrap-around or check written out. A byte
-- string is a list of numbers. An identity is its 32 bytes in the wire formats, and in the store the
-- number that these spell, so that the order of the numbers is the order of the byte strings.
--
-- Fuel. The codec loops take a byte at least in a round and are given the length of their input.
-- `trim_ghosts` is given the lengths of its queues, of which a round shortens one. The loop that
-- normalises a subnormal half has ten rounds, one for each bit of the mantissa. `make_room` is on
-- fuel that its caller gives and answers none where the loop still runs; more fuel than entries is
-- enough for LRU and LFU, and nothing is said of the end of the loop for the other policies.
--
-- Parameters. SHA-256, from which the sketch takes its indices, is the function `digest`. The record
-- `External` of Handoff/External holds what the handoff calls: the canonical JSON of the manifests,
-- SHA-256, HMAC-SHA256 and hex. The file system is the record `Disk` of Handoff/Bundle, each of whose
-- calls may fail; `IsFileSystem` of Handoff/Bundle/Files names what its calls are documented to do: a
-- write with `create_new` that succeeds leaves its bytes, refuses a file that is there, and neither it
-- nor a sync nor the rename changes another file. The frame body of the mux and the permit of the coordinator are types.
--
-- Not modelled: the chunk header, the Merkle tree and the AEAD calls; the pack container, its
-- manifest and the validator; quantisation, rotation and statistics, which compute with floats; the
-- SQLite store, the writer, restore and prefill; the socket I/O, the frame envelope and the session
-- of the handoff, its durations and its random names; the offline replay oracle; the
-- poisoning of a mutex; the serde forms.
pub mod Base
pub mod Core
pub mod Store
pub mod Handoff
pub mod Capacity
