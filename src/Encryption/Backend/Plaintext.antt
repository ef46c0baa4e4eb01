-- ===== src/Encryption/Backend/Plaintext.antt =====
-- `CompleteMultipartUpload` of `EncryptedBackend`, internal/storage/encrypted.go, where the assembled
-- object stays as it is.
use s3proxy_go.Storage.Backend
