-- ===== src/Storage/Storing.antt =====
-- Backends of internal/storage/backend.go that take every object and give it back.
use s3proxy_go.Base.{Bytes, ℤ, Dict, ◌≡◌, false, ok, is_empty}
use s3proxy_go.Storage.Backend.{Backend, Reader, Object}

-- an object has the content and the metadata with which it was put
pub record Stores {S : Type 0} (b : Backend S) : Type 0 where
  pub accepts :
      (bucket key : Bytes) (reader : Reader) (size : ℤ) (metadata : Dict Bytes) (s : S)
      → reader.fails ≡ false
      → (b.put_object bucket key reader size metadata s).0 ≡ ok tt
  pub stored :
      (bucket key : Bytes) (reader : Reader) (size : ℤ) (metadata : Dict Bytes) (s : S)
      → is_empty key ≡ false
      → reader.fails ≡ false
      → (obj : Object) × ((b.get_object bucket key
            (b.put_object bucket key reader size metadata s).1).0
          ≡ ok obj)
        × (obj.body.content ≡ reader.content)
        × (obj.body.fails ≡ false)
        × (obj.metadata ≡ metadata)
