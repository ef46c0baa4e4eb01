-- ===== src/Remote/Buckets/Prefixes.antt =====
-- The keys of a virtual bucket and the keys of the real one.
use s3proxy_go.Base.{
  false, if◌then◌else◌, Bytes, lit, has_prefix, has_prefix-append, is_empty, [], ◌∷◌, ◌++◌, ◌≡◌,
  refl, drop-append,
}
use s3proxy_go.Remote.Buckets.{
  S3StorageConfig, get_prefix_for_bucket, trim_prefix, prefixed, add_prefix_to_key,
  remove_prefix_from_key,
}

trim_prefix-append : (p s : Bytes) → trim_prefix (p ++ s) p ≡ s
unfolding trim_prefix
trim_prefix-append p s = rw (has_prefix-append p s) (drop-append p s)

round :
    (prefix key : Bytes)
    → has_prefix key (lit "/") ≡ false
    → (if is_empty prefix then prefixed prefix key else trim_prefix (prefixed prefix key) prefix)
      ≡ key
unfolding prefixed is_empty
round [] key plain = refl
round (c ∷ prefix) key plain = rw plain (trim_prefix-append (c ∷ prefix) key)

-- The prefix that is put in front of a key is taken off again, for every virtual bucket and every key
-- that does not begin with a slash.
pub remove_prefix_from_key-add_prefix_to_key :
    (c : S3StorageConfig) (bucket key : Bytes)
    → has_prefix key (lit "/") ≡ false
    → remove_prefix_from_key c bucket (add_prefix_to_key c bucket key) ≡ key
unfolding remove_prefix_from_key add_prefix_to_key
remove_prefix_from_key-add_prefix_to_key c bucket key plain =
    round (get_prefix_for_bucket c bucket) key plain

-- In a bucket that has a prefix a key and the same key behind a slash are one key of the real bucket,
-- for keys that do not begin with a slash themselves.
pub add_prefix_to_key_slash :
    (c : S3StorageConfig) (bucket key : Bytes)
    → is_empty (get_prefix_for_bucket c bucket) ≡ false
    → has_prefix key (lit "/") ≡ false
    → add_prefix_to_key c bucket (b'/' ∷ key) ≡ add_prefix_to_key c bucket key
unfolding add_prefix_to_key prefixed
add_prefix_to_key_slash c bucket key filled plain = simp (filled, plain)
