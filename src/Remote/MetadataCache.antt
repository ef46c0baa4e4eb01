-- ===== src/Remote/MetadataCache.antt =====
-- internal/storage/s3.go: `MetadataCache`, in which an entry counts until its time of expiry.
use s3proxy_go.Base.{
  ℕ, ◌+◌, if◌then◌else◌, ltb, Bytes, Dict, lookup, insert, delete, Option, none, some,
}
use s3proxy_go.Storage.Backend.{ObjectInfo}

pub record CachedMetadata : Type 0 where
  pub info : ObjectInfo
  pub expiry : ℕ

pub record MetadataCache : Type 0 where
  pub entries : Dict CachedMetadata
  pub ttl : ℕ

unfoldable pub get : ℕ → Bytes → MetadataCache → Option ObjectInfo
unfolding lookup
get now key m = elim (lookup key m.entries) [
  | none ↦ none
  | some e ↦ if ltb now e.expiry then some e.info else none
]

unfoldable pub set : ℕ → Bytes → ObjectInfo → MetadataCache → MetadataCache
unfolding insert
set now key info m = record m {
  entries = insert key (record { info = info; expiry = now + m.ttl }) m.entries;
}

unfoldable pub delete_key : Bytes → MetadataCache → MetadataCache
unfolding delete
delete_key key m = record m { entries = delete key m.entries }
