-- ===== src/Storage/Isolation.antt =====
-- Backends of internal/storage/backend.go whose writing methods change the objects that they name and
-- no others, and none where they fail.
use s3proxy_go.Base.{Bytes, ℤ, Dict, ◌≡◌, ◌≢◌, ◌&&◌, beq, false, ok, err, []}
use s3proxy_go.Storage.Backend.{Backend, Reader, Object}

pub record Isolates {S : Type 0} (b : Backend S) : Type 0 where
  pub put_other :
      (bucket key bucket' key' : Bytes) (reader : Reader) (size : ℤ) (metadata : Dict Bytes) (s : S)
      → (beq bucket bucket' && beq key key') ≡ false
      → (b.get_object bucket' key' (b.put_object bucket key reader size metadata s).1).0
        ≡ (b.get_object bucket' key' s).0
  pub put_failed :
      (bucket key bucket' key' : Bytes) (reader : Reader) (size : ℤ) (metadata : Dict Bytes) (s : S)
      (message : Bytes)
      → (b.put_object bucket key reader size metadata s).0 ≡ err message
      → (b.get_object bucket' key' (b.put_object bucket key reader size metadata s).1).0
        ≡ (b.get_object bucket' key' s).0
  pub delete_other :
      (bucket key bucket' key' : Bytes) (s : S)
      → (beq bucket bucket' && beq key key') ≡ false
      → (b.get_object bucket' key' (b.delete_object bucket key s).1).0
        ≡ (b.get_object bucket' key' s).0
  pub delete_failed :
      (bucket key bucket' key' : Bytes) (s : S) (message : Bytes)
      → (b.delete_object bucket key s).0 ≡ err message
      → (b.get_object bucket' key' (b.delete_object bucket key s).1).0
        ≡ (b.get_object bucket' key' s).0
  pub delete_bucket_other :
      (bucket bucket' key' : Bytes) (s : S)
      → beq bucket bucket' ≡ false
      → (b.get_object bucket' key' (b.delete_bucket bucket s).1).0 ≡ (b.get_object bucket' key' s).0
  pub delete_bucket_failed :
      (bucket bucket' key' : Bytes) (s : S) (message : Bytes)
      → (b.delete_bucket bucket s).0 ≡ err message
      → (b.get_object bucket' key' (b.delete_bucket bucket s).1).0 ≡ (b.get_object bucket' key' s).0
  -- no object has the empty key
  pub empty_key : (bucket : Bytes) (s : S) (obj : Object) → (b.get_object bucket [] s).0 ≢ ok obj
