-- ===== src/Remote/State.antt =====
-- internal/storage/s3.go: `S3Backend`, its state and the steps that its methods share.
use s3proxy_go.Base.{ℕ, Bytes, lit, Dict, ◌∷◌, ◌++◌, Result, ok}
use s3proxy_go.Storage.Backend.{Action}
use s3proxy_go.Storage.Steps.{wrap}
use s3proxy_go.Remote.Buckets.{S3StorageConfig, map_bucket, add_prefix_to_key}
use s3proxy_go.Remote.Clients.{AwsConfig, get_client_for_bucket}
use s3proxy_go.Remote.MetadataCache.{MetadataCache, delete_key}
use s3proxy_go.Remote.Sdk.{Sdk}

-- the clients that were made, the metadata cache, the time and the service
pub record S3State (Client World : Type 0) : Type 0 where
  pub clients : Dict Client
  pub metadata_cache : MetadataCache
  pub now : ℕ
  pub world : World

-- what does not change while the backend runs: the settings, the default client, how the SDK makes a
-- client of its settings, and the size of the buffer with which the body of an object is read
pub record Setting (Client World : Type 0) : Type 0 where
  pub config : S3StorageConfig
  pub default_client : Client
  pub new_client : AwsConfig → Result Bytes Client
  pub sdk : Sdk Client World
  pub read_size : ℕ

module _ {Client World : Type 0} (s3 : Setting Client World) where
  abbrev with_clients :
      S3State Client World
      → Result Bytes Client × Dict Client
      → Result Bytes Client × S3State Client World
  with_clients s (r, clients) = (r, record s { clients = clients })

  -- `getClientForBucket`, whose error every method wraps alike
  unfoldable pub client_for : Bytes → Action (S3State Client World) Client
  unfolding get_client_for_bucket
  client_for bucket = wrap (lit "failed to get client for bucket: ") (λ s.
      with_clients s
        (get_client_for_bucket s3.new_client s3.config s3.default_client bucket s.clients))

  -- a call of the SDK
  unfoldable pub call : {A : Type 0} → Action World A → Action (S3State Client World) A
  call m s = ((m s.world).0, record s { world = (m s.world).1 })

  abbrev pub real_bucket : Bytes → Bytes
  real_bucket bucket = map_bucket s3.config bucket

  abbrev pub real_key : Bytes → Bytes → Bytes
  real_key bucket key = add_prefix_to_key s3.config bucket key

-- the key of an object in the metadata cache
unfoldable pub cache_key : Bytes → Bytes → Bytes
cache_key bucket key = bucket ++ b'/' ∷ key

-- the entry of an object is dropped
unfoldable pub invalidated :
    {Client World : Type 0} → Bytes → Bytes → Action (S3State Client World) (Unit {0})
unfolding cache_key delete_key
invalidated bucket key s =
    (ok tt, record s { metadata_cache = delete_key (cache_key bucket key) s.metadata_cache })
