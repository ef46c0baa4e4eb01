-- ===== src/Kms/DataKeyCache.antt =====
-- internal/kms/cache.go: `DataKeyCache`. The cache holds pointers to data keys which its callers
-- hold too, so the keys lie in a heap and every method threads it.
pub mod Reads
pub mod Distinct
pub mod Secrets
use s3proxy_go.Base.{
  ℕ, ◌+◌, ◌*◌, ◌==◌, ltb, if◌then◌else◌, Bool, true, false, Option, none, some, List, [], ◌∷◌, ◌++◌,
  map, length, Bytes, is_empty, beq, Dict, lookup, insert, delete, ℤ, pos, negsuc, String, lit,
}

-- times and durations are nanoseconds
pub record DataKey : Type 0 where
  pub key_id : Bytes
  pub plaintext_key : Bytes
  pub ciphertext_blob : Bytes
  pub encryption_context : Dict Bytes
  pub created_at : ℕ

abbrev pub Heap : Type 0
Heap = ℕ → DataKey

abbrev pub write : Heap → ℕ → DataKey → Heap
write h p d q = if q == p then d else h q

-- a pointer is an address of the heap, and `none` is nil
pub record CacheEntry : Type 0 where
  pub data_key : Option ℕ
  pub expires_at : ℕ

pub record DataKeyCache : Type 0 where
  pub cache : Dict (Option CacheEntry)
  pub ttl : ℕ
  pub stopped : Bool

abbrev second : ℕ
second = 1000000000

abbrev default_ttl : ℕ
default_ttl = 5 * (60 * second)

default_if_zero : ℕ → ℕ
default_if_zero n = if n == 0 then default_ttl else n

-- `NewDataKeyCache`
unfoldable pub new_data_key_cache : ℤ → DataKeyCache
unfolding default_if_zero
new_data_key_cache (pos n) = record { cache = []; ttl = default_if_zero n; stopped = false }
new_data_key_cache (negsuc n) = record { cache = []; ttl = default_ttl; stopped = false }

-- `now.After(t)` is `t < now`
read_entry : ℕ → Option (Option CacheEntry) → Option ℕ
read_entry now none = none
read_entry now (some none) = none
read_entry now (some (some e)) = if ltb e.expires_at now then none else e.data_key

-- `Get`
unfoldable pub get : Bytes → ℕ → DataKeyCache → Option ℕ
unfolding is_empty read_entry
get key now c = if is_empty key then none else read_entry now (lookup key c.cache)

abbrev pub zeros : Bytes → Bytes
zeros = map (λ _. 0)

abbrev pub wipe : DataKey → DataKey
wipe d = record d { plaintext_key = zeros d.plaintext_key }

-- `clearSensitiveData`
unfoldable pub clear_sensitive_data : Option ℕ → Heap → Heap
clear_sensitive_data none h = h
clear_sensitive_data (some p) h = write h p (wipe (h p))

-- the test before each call of `clearSensitiveData`
unfoldable pub clear_entry : Option (Option CacheEntry) → Heap → Heap
unfolding clear_sensitive_data
clear_entry none h = h
clear_entry (some none) h = h
clear_entry (some (some e)) h = clear_sensitive_data e.data_key h

put_some : Bytes → ℕ → ℕ → DataKeyCache → Heap → DataKeyCache × Heap
unfolding clear_entry
put_some key p now c h =
    let entry : CacheEntry = record { data_key = some p; expires_at = now + c.ttl } in
    (record c { cache = insert key (some entry) c.cache }, clear_entry (lookup key c.cache) h)

-- `Put`
unfoldable pub put : Bytes → Option ℕ → ℕ → DataKeyCache → Heap → DataKeyCache × Heap
unfolding is_empty put_some
put key none now c h = (c, h)
put key (some p) now c h = if is_empty key then (c, h) else put_some key p now c h

-- `Delete`
unfoldable pub delete_key : Bytes → DataKeyCache → Heap → DataKeyCache × Heap
unfolding is_empty clear_entry
delete_key key c h =
    if is_empty key
    then (c, h)
    else (record c { cache = delete key c.cache }, clear_entry (lookup key c.cache) h)

-- the loop of `Clear` and `Close`; the order of the keys does not matter
unfoldable pub clear_all : Dict (Option CacheEntry) → Heap → Heap
unfolding clear_entry
clear_all [] h = h
clear_all ((k, e) ∷ m) h = clear_all m (clear_entry (some e) h)

-- `Clear`
unfoldable pub clear : DataKeyCache → Heap → DataKeyCache × Heap
unfolding clear_all
clear c h = (record c { cache = [] }, clear_all c.cache h)

-- `Size`
unfoldable pub size : DataKeyCache → ℕ
size c = length c.cache

-- the loop of `cleanup`: the entries that stay, and the heap
unfoldable pub cleanup_loop : ℕ → Dict (Option CacheEntry) → Heap → Dict (Option CacheEntry) × Heap
unfolding clear_sensitive_data
cleanup_loop now [] h = ([], h)
cleanup_loop now ((k, none) ∷ m) h = cleanup_loop now m h
cleanup_loop now ((k, some e) ∷ m) h =
    let gone = ltb e.expires_at now in
    let (rest, h') = cleanup_loop now m (if gone then clear_sensitive_data e.data_key h else h) in
    (if gone then rest else (k, some e) ∷ rest, h')

-- `cleanup`
unfoldable pub cleanup : ℕ → DataKeyCache → Heap → DataKeyCache × Heap
unfolding cleanup_loop
cleanup now c h = let (m, h') = cleanup_loop now c.cache h in (record c { cache = m }, h')

-- `Close`
unfoldable pub close : DataKeyCache → Heap → DataKeyCache × Heap
unfolding clear_all
close c h =
    if c.stopped then (c, h) else (record c { cache = []; stopped = true }, clear_all c.cache h)

-- the bytes that `buildDataKeyCacheKey` hashes, the context in the order of the map's iteration
unfoldable pub hash_input : Bytes → Dict Bytes → Bytes
hash_input s [] = s
hash_input s ((k, v) ∷ context) = hash_input (s ++ (k ++ v)) context

-- `buildDataKeyCacheKey`, over the SHA-256 in hexadecimal
unfoldable pub build_data_key_cache_key : (Bytes → Bytes) → Bytes → Dict Bytes → Bytes
unfolding hash_input is_empty
build_data_key_cache_key hex_sha256 key_id context =
    if is_empty key_id then [] else hex_sha256 (hash_input key_id context)

-- `serializeEncryptionContext`, the context in the order of the map's iteration
serialize_from : Bytes → Bool → Dict Bytes → Bytes
serialize_from result first [] = result
serialize_from result first ((k, v) ∷ context) =
    serialize_from ((if first then result else result ++ lit ",") ++ (k ++ (lit "=" ++ v))) false
      context

unfoldable pub serialize_encryption_context : Dict Bytes → Bytes
unfolding serialize_from
serialize_encryption_context context = serialize_from [] true context
