-- ===== src/Remote/Clients/Again.antt =====
-- The client of a bucket is the same at every call.
use s3proxy_go.Base.{
  Bytes, beq_refl, Dict, lookup, lookup-insert, Option, none, some, Result, ok, err, ◌≡◌, refl, sym,
  ap, ◌∙◌,
}
use s3proxy_go.Remote.Buckets.{BucketConfig, S3StorageConfig}
use s3proxy_go.Remote.Clients.{
  AwsConfig, get_client_for_bucket, get_or_create_client, client_config, client_key, or_created,
  or_default,
}

module _ {Client : Type 0} (new_client : AwsConfig → Result Bytes Client)
    (c : S3StorageConfig) where
  again-created :
      (key : Bytes) (clients clients' : Dict Client) (r : Result Bytes Client) (o : Option Client)
      (client : Client)
      → lookup key clients ≡ o
      → or_created new_client c key clients r o ≡ (ok client, clients')
      → lookup key clients' ≡ some client
  again-created key clients clients' r (some k) client found h =
      ap (lookup key) (sym (ap (λ x. x.1) h)) ∙ found ∙ cc h
  again-created key clients clients' (ok k) none client found h =
      ap (lookup key) (sym (ap (λ x. x.1) h))
      ∙ lookup-insert key key k clients
      ∙ rw (beq_refl key) (cc h)
  again-created key clients clients' (err e) none client found h = cc

  reused :
      (b : BucketConfig) (clients : Dict Client) (client : Client)
      → lookup (client_key b) clients ≡ some client
      → get_or_create_client new_client c b clients ≡ (ok client, clients)
  unfolding get_or_create_client
  reused b clients client found = simp found

  -- the client of a bucket stays the same
  pub get_client_for_bucket_again :
      (default_client client : Client) (bucket : Bytes) (clients clients' : Dict Client)
      → get_client_for_bucket new_client c default_client bucket clients ≡ (ok client, clients')
      → get_client_for_bucket new_client c default_client bucket clients' ≡ (ok client, clients')
  unfolding get_client_for_bucket
  get_client_for_bucket_again default_client client bucket clients clients' h =
      chosen (client_config c bucket) h
    where
      chosen :
          (o : Option BucketConfig)
          → or_default new_client c default_client clients o ≡ (ok client, clients')
          → or_default new_client c default_client clients' o ≡ (ok client, clients')
      chosen none h = ap (λ k. (ok k, clients')) (cc h)
      chosen (some b) h = reused b clients' client (
          again-created (client_key b) clients clients' _ (lookup (client_key b) clients) client
            refl (unfold get_or_create_client in h))
