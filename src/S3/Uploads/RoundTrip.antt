-- ===== src/S3/Uploads/RoundTrip.antt =====
-- An object that `putObject` of pkg/s3/handler.go stores is the one that `getObject` sends.
use s3proxy_go.Base.{false, Option, Bytes, Result, ok, ◌≡◌}
use s3proxy_go.Storage.Backend.{Backend, Reader}
use s3proxy_go.S3.Objects

-- what is read of a request whose length is declared truly has the request's bytes
record IsRead (content : Bytes) (result : Result Bytes (Reader × Option Bytes)) : Type 0 where
  body : Reader
  etag : Option Bytes
  read : result ≡ ok (body, etag)
  whole : body.content ≡ content
  sound : body.fails ≡ false
