-- ===== src/Lib.antt =====
-- s3proxy, an S3 proxy in Go: the development beside its code.
--
-- The program takes S3 requests over HTTP (pkg/s3/handler.go), answers them from a storage backend
-- (internal/storage/backend.go), and may put two layers between them that are backends themselves: a
-- cache (internal/cache/cache.go) and encryption (internal/storage/encrypted.go, with
-- internal/encryption). Data keys come from a KMS (internal/kms), which has its own cache of keys and
-- its own envelope encryption.
--
-- Files and code:
--   Base/...             Go's strings, maps, int64, strconv: Text, Maps, Int, Decimal; results; lists
--   Storage/Backend      `storage.Backend` and its data: a record of functions over the backend's state
--   Storage/Reads, Isolation, Storing: what a theorem may ask of a backend, each a record of laws
--   Storage/Memory       a backend in memory for which those laws are proved
--   FileSystem           `FileSystemBackend` (internal/storage/filesystem.go), a backend over a tree of
--                        files: Tree and Disk: the calls of package os; Paths: package filepath;
--                        Objects, Listing, Uploads: its methods; Files: the backend
--   Remote               `S3Backend` (internal/storage/s3.go): Buckets: virtual buckets; Clients; MetadataCache;
--                        Decoding: the reader of bodies; Sdk: the calls of the AWS SDK, a parameter; State,
--                        Metadata, Objects, Parts, Listing: its methods; Backend: the backend
--   Storage/Steps        chains of steps over a backend's state
--   S3/Http              requests, responses, `sendError`, the metadata headers
--   S3/Range             `parseRangeHeader` and the arithmetic of `getRangeObject`
--   S3/Objects           `getObject` and `getRangeObject`
--   S3/Uploads           the other operations of the handler
--   S3/Route             `handleObject`, `handleBucket`
--   S3/WithKms           `HandlerWithKMS` (pkg/s3/handler_kms.go); S3/KmsRoute: its choice of the operation
--   ObjectCache          `ObjectCache`; Queue: the two-queue cache of golang-lru, a parameter;
--                        Caching: `CachingBackend`, a backend again
--   Encryption           `Manager.Decrypt` and `SimpleAESGCMEncryptor`, over a key provider
--   Encryption/LocalKeys `LocalKeyProvider` (internal/encryption/keys/local.go), a key provider
--   Encryption/Backend   `EncryptedBackend`, a backend again
--   Kms/DataKeyCache     `DataKeyCache`; Kms/Manager: `Manager`
--   Kms/Envelope         `EnvelopeEncryptor`; Kms/Stream: `StreamEncryptor`
--   Auth                 internal/auth/provider.go; Fast: `FastAWSProvider`
--   Limits               internal/proxy/ratelimit.go: Address: the address of a client; Rate: `RateLimiter`;
--                        Concurrency: `ConcurrencyLimiter`, with its step relation in Reach
--   Examples, in each    the theorems applied to concrete values
--
-- State is passed explicitly: a method takes the state and returns its result and the new state, and an
-- error is a value. Where several holders share a data key (the cache and the callers of
-- GenerateDataKey), keys live in a heap under addresses and are zeroed in place, as the code does. The
-- time and the random nonces are arguments. Mutexes are left out: each method is one step. Numbers are
-- natural numbers with their bound where one matters (int64 in ranges, the counters' wrap at 2 ^ 64);
-- times are nanoseconds.
--
-- Parameters, with what is asked of them: the AWS client, SHA-256 and MD5 (nothing), AES-GCM (a sealed
-- text opens under its key and nonce, and for streams adds at most 16 bytes), base64 (decodes what it
-- encoded), the two-queue cache (a read changes no content, an add may drop other entries), the storage
-- backend (each theorem names its laws), XML and dates (nothing), JSON of an object's metadata (it gives
-- back those that the theorem is about), the texts of the system's errors (nothing), the AWS SDK (nothing;
-- that a read answers what was put, for the round trip), the token bucket of golang.org/x/time/rate
-- (nothing).
--
-- Fuel: the loop of `StreamEncryptor.Write` takes as much as the buffer has bytes, and each turn
-- takes at least one off, so that it never runs out where the chunk size is positive; the theorem on
-- streams shows it. The reader of frames takes one more than the bytes it reads. The loop over the
-- parts of an upload takes one more than the content has bytes, since no part is empty; reading a
-- body takes one more than its bytes and blocks together, since each read takes a block or a byte.
-- The conversions between numbers and decimal text take as much as the number.
--
-- Not modelled: the Azure backend, the helpers of internal/storage/stream.go, the key providers of
-- services, the chunked encryptor that no factory builds, the server's set-up and its routes,
-- metrics, transports and the reading of the configuration.
pub mod Base
pub mod Kms
pub mod Storage
pub mod FileSystem
pub mod S3
pub mod Remote
pub mod Limits
pub mod ObjectCache
pub mod Encryption
pub mod Auth
