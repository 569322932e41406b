-- ===== src/Lib.antt =====
-- The engine of Grimlocker, a daemon for encrypted vaults: its request protocol, its session, and
-- its guards against guessing and tampering.
--
-- A client sends a binary frame (engine/gql/frame.go). The frame's payload is a query
-- (engine/gql/types.go). The validator (engine/gql/validator.go) decodes the query and checks its
-- syntax and then, against the session, its rights. The session (engine/security/session.go) is
-- unlocked with a key handle and locks itself after a time without activity. Failed logins go
-- through the lockdown manager (engine/security/lockdown.go) and, per subject, the rate limiter
-- (engine/security/rate_limiter.go); the intrusion detector
-- (engine/security/intrusion_detector.go) watches the rates of failures, reads and deletions, and
-- the audit log (engine/security/audit.go) keeps a chain of events. Passwords in transit are kept
-- by the secret guard (engine/security/secret_guard.go) and vault keys by the key store
-- (engine/security/mvk_store.go); a client proves its key to the verifier
-- (engine/security/zkp.go). The modules that do all this talk through events on a bus
-- (engine/kernel/bus.go), which a registry fills and starts (engine/kernel/registry.go). All
-- parts return errors of one type (engine/errors/types.go). Blocks are written in transactions
-- (engine/storage/blockstore_v2.go), files are overwritten before they are removed
-- (engine/crypto/shredder.go), and keys are derived from passwords or from coordinates in a file
-- of entropy (engine/crypto/argon.go, engine/crypto/coordinate.go, engine/crypto/entropy.go),
-- through a bridge to an enclave or its fallback (engine/bridge/gofallback.go), and used to
-- encrypt (engine/crypto/chacha.go). A tool makes SSH keys (engine/tools/ssh_gen.go).
--
--   Base: shared names; lists, maps, integers and their decimals, bits of bytes, and results of
--     fallible code.
--   Wire: big-endian integers and buffers that are filled from the left.
--   Gql/Opcodes: engine/gql/opcodes.go.
--   Gql/Frame: Frame, Frame.Encode (encode) and DecodeFrame (decode_frame).
--   Gql/Message: NewQueryFrame, NewResultFrame and NewErrorFrame.
--   Gql/Query: GQLQuery, with Encode in Gql/Query/Encode and DecodeQuery in Gql/Query/Decode.
--   Gql/ErrorNames: engine/gql/errors.go.
--   Gql/Utf8: the runes of a string, as `range` gives them.
--   Gql/Validator: ValidateFrame and its helpers, under the names of the source.
--   Security/Lockdown: lockdownManager, one function per method.
--   Security/RateLimiter: RateLimiter, one function per method.
--   Security/Audit: ringAuditLog, with the hash function as a parameter; Security/Audit/Link
--     describes an event of its chain.
--   Security/IntrusionDetector: IntrusionDetector, one function per method.
--   Security/Session: SessionContext, with the timer's firing as a step of its own (tick).
--     Security/Session/OnBus has the bus as its dispatcher, and Security/Session/Races lets
--     concurrent calls overtake each other.
--   Security/SecretGuard: SecretGuard, with the buffers on a heap.
--   Security/Zkp: ZKPVerifier and ComputeProof, with the hash function as a parameter;
--     Security/Zkp/Hex is Go's encoding/hex.
--   Security/MvkStore and Security/ConstantTime: lockedMVKStore, with the buffers on a heap, and
--     constantTimeEqual.
--   Errors: GrimlockError, its constructors (Errors/Constructors), codes (Errors/Codes), texts
--     (Errors/Text) and hints (Errors/Remediation); Errors/Logging is Log and StdLogger of
--     engine/errors/logging.go.
--   Kernel/Event: events and the channel of an event type.
--   Kernel/Bus: the bus, one function per method; Dispatch is dispatch, which is hop, signal and
--     route, and Request is begin_request, ready_results and end_request. Kernel/Bus/Calls has
--     the calls that reach it, one step each, Kernel/Bus/Onward what becomes of an event on its
--     way, and Kernel/Bus/Stopping the Shutdown of modules.
--   Kernel/Uuid: newID of engine/kernel/uuid.go.
--   Kernel/Handler: HandlerBuilder, over handlers that return or panic and write to a log.
--   Kernel/Registry: Registry over the bus, BaseModule and ModuleFactory.
--   Storage/Transaction: InMemoryWriteTransaction, over any block store. Storage/Block: the data
--     of the other files of engine/storage.
--   Crypto/Shredder and Crypto/Coordinate: Shred over any writer and random source;
--     DeriveCoordinateOffsets and DeriveXORAsMVK.
--   Crypto/Provider: the methods of provider, with ciphers and hashes as parameters.
--     Crypto/Entropy: GenerateEntropyFileWithProgress over any disk. Crypto/PqcReady:
--     engine/crypto/pqc_ready.go.
--   Bridge/Offsets, Bridge/GoFallback and Bridge/Default: EncodeOffsetsJSON, the fallbacks and
--     DefaultBridge of engine/bridge.
--   Tools/SshGen: engine/tools/ssh_gen.go, with the libraries for keys as a parameter.
--   Tests in each part, Security/MonitorTests, Security/KeyTests, Security/SessionTests and
--     Crypto/ProviderTests: runs on concrete data.
--
-- Methods that lock a mutex are one step, and take each reading of the clock as an argument. A
-- byte slice or a string is a list of numbers; a map is an association list, and where the code
-- walks one and the order can matter, the order is a parameter. Go's int is unbounded, since the
-- counters stay small, but the interval of the auto-lock is a time.Duration that wraps around.
-- The inner loop of Shred and the loop of the entropy file run on fuel, one for each byte, which
-- is enough since every round writes at least one, and the printing of a number on one more than
-- the number, of which every round leaves a tenth; the other loops run over a list or a number of
-- rounds.
--
-- Not modelled: the cryptographic libraries and the Rust core, which the engine only calls; JSON,
-- the run time that captures stacks, and the times in front of log lines; the interfaces to other
-- processes (engine/port.go, engine/provider/interfaces.go), which declare types only.
pub mod Base
pub mod Bridge
pub mod Crypto
pub mod Errors
pub mod Gql
pub mod Kernel
pub mod Security
pub mod Storage
pub mod Tools
pub mod Wire
