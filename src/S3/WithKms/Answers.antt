-- ===== src/S3/WithKms/Answers.antt =====
-- What the uploads of pkg/s3/handler_kms.go answer.
use s3proxy_go.Storage.Backend.{Backend}
use s3proxy_go.Kms.Manager.{Manager}
