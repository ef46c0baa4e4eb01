-- ===== src/Remote/RoundTrip.antt =====
-- Objects that are put through the S3 backend and read back, and what its metadata cache remembers.
use s3proxy_go.Base.{
  true, false, ◌&&◌, ltb_ℤ, leb_ℤ, Bytes, Dict, List, some, ok, ◌≡◌, ap, ◌∙◌, ◌⊎◌, ℤ, pos,
}
use s3proxy_go.Storage.Backend.{Reader, ObjectInfo, CompletedPart}
use s3proxy_go.Storage.Steps.{and_then}
use s3proxy_go.Remote.Clients.{get_client_for_bucket}
use s3proxy_go.Remote.MetadataCache.{get, delete_key}
use s3proxy_go.Remote.Decoding.Plain.{concat}
use s3proxy_go.Remote.Sdk.{Sdk, GetObjectOutput, PutObjectInput}
use s3proxy_go.Remote.State.{Setting, S3State, client_for, real_bucket, real_key, cache_key}
use s3proxy_go.Remote.Objects.{get_object, head_object}
use s3proxy_go.Remote.Parts.{
  put_object, multipart_threshold, complete_multipart_upload, completed_parts,
}

-- the service gives back the content of an object that it took, in blocks of its own choice
pub record KeepsContent {Client World : Type 0} (sdk : Sdk Client World) : Type 0 where
  pub kept :
      (client : Client) (input : PutObjectInput) (w w' : World)
      → sdk.put_object client input w ≡ (ok tt, w')
      → (resp : GetObjectOutput) × (w'' : World) × (sdk.get_object client input.bucket input.key w'
          ≡ (ok resp, w''))
        × (concat resp.blocks ≡ input.body.content)
        × (resp.fails ≡ false)

module _ {Client World : Type 0} (s3 : Setting Client World) (bucket key : Bytes) where
  -- the client of the bucket is made, or is there
  abbrev pub Serves : Client → Dict Client → Dict Client → Type 0
  Serves client clients clients' =
      get_client_for_bucket s3.new_client s3.config s3.default_client bucket clients
      ≡ (ok client, clients')

  -- the state behind an object that was put
  abbrev after_put : S3State Client World → Dict Client → World → S3State Client World
  after_put s clients' w = record s {
    clients = clients';
    metadata_cache = delete_key (cache_key bucket key) s.metadata_cache;
    world = w;
  }

  client_for-runs :
      (client : Client) (s : S3State Client World) (clients' : Dict Client)
      → Serves client s.clients clients'
      → client_for s3 bucket s ≡ (ok client, record s { clients = clients' })
  unfolding client_for
  client_for-runs client s clients' serves = simp serves

  -- a body that is sent in one call: one that can be read twice, or one of a known and small size
  abbrev pub IsSentWhole : Reader → ℤ → Type 0
  IsSentWhole reader size =
      (reader.seekable ≡ true)
      ⊎ ((reader.seekable ≡ false)
          × ((ltb_ℤ (pos 0) size && leb_ℤ size (pos multipart_threshold)) ≡ true))

  completes :
      (client : Client) (upload_id : Bytes) (parts : List CompletedPart) (s : S3State Client World)
      (clients' : Dict Client) (w : World)
      → Serves client s.clients clients'
      → s3.sdk.complete_multipart_upload client
          (real_bucket s3 bucket)
          (real_key s3 bucket key)
          (some upload_id)
          (completed_parts parts)
          s.world
        ≡ (ok tt, w)
      → complete_multipart_upload s3 bucket key upload_id parts s
        ≡ (ok tt, record s { clients = clients'; world = w })
  unfolding complete_multipart_upload
  completes client upload_id parts s clients' w serves done =
      ap (and_then _) (client_for-runs client s clients' serves) ∙ simp done

  -- A multipart upload that is completed does not drop what the metadata cache has of the key: until the
  -- entry expires, `HeadObject` answers the information of the object that was replaced.
  pub head_object-complete_multipart_upload :
      (client : Client) (upload_id : Bytes) (parts : List CompletedPart) (info : ObjectInfo)
      (s : S3State Client World) (clients' : Dict Client) (w : World)
      → Serves client s.clients clients'
      → get s.now (cache_key bucket key) s.metadata_cache ≡ some info
      → s3.sdk.complete_multipart_upload client
          (real_bucket s3 bucket)
          (real_key s3 bucket key)
          (some upload_id)
          (completed_parts parts)
          s.world
        ≡ (ok tt, w)
      → (s' : S3State Client World) × (complete_multipart_upload s3 bucket key upload_id parts s
          ≡ (ok tt, s'))
        × (head_object s3 bucket key s' ≡ (ok info, s'))
  unfolding head_object
  head_object-complete_multipart_upload client upload_id parts info s clients' w serves cached
        done =
      (
        record s { clients = clients'; world = w },
        completes client upload_id parts s clients' w serves done,
        simp cached,
      )
