-- ===== src/Storage/Memory.antt =====
-- A backend that keeps its objects in memory, on which the theorems' conditions are met.
use s3proxy_go.Base.{
  is_empty, beq_refl, true, false, if◌then◌else◌, ◌&&◌, Option, none, some, [], ◌∷◌, Bytes, beq,
  lit, length, pos, Result, ok, err, ◌≡◌, refl, arith,
}
use s3proxy_go.Storage.Backend.{Backend, Object, ObjectInfo, Action}
use s3proxy_go.Storage.Reads.{ReadsKeep}
use s3proxy_go.Storage.Isolation.{Isolates}
use s3proxy_go.Storage.Storing.{Stores}

abbrev pub Objects : Type 0
Objects = Bytes → Bytes → Option Object

found_or : {A : Type 0} → (Object → A) → Option Object → Result Bytes A
found_or f none = err (lit "object not found")
found_or f (some obj) = ok (f obj)

abbrev fetch : Objects → Bytes → Bytes → Result Bytes Object
fetch s bucket [] = err (lit "object not found")
fetch s bucket (c ∷ key) = found_or (λ obj. obj) (s bucket (c ∷ key))

abbrev pub info_of : Bytes → Object → ObjectInfo
info_of key obj = record {
  key = key;
  size = obj.size;
  etag = obj.etag;
  last_modified = obj.last_modified;
  storage_class = [];
  content_type = obj.content_type;
  metadata = obj.metadata;
}

abbrev pub object : Bytes → Object
object content = record {
  body = record { seekable = false; content = content; fails = false };
  content_type = lit "text/plain";
  size = pos (length content);
  etag = lit "e";
  metadata = [];
  last_modified = 0;
}

abbrev refused : {A : Type 0} → Action Objects A
refused s = (err (lit "not implemented"), s)

abbrev stored : Bytes → Bytes → Option Object → Objects → Objects
stored bucket key obj s = λ b k. if beq bucket b && beq key k then obj else s b k

unfoldable pub memory : Backend Objects
unfolding found_or
memory = record {
  list_buckets = refused;
  create_bucket = λ bucket. refused;
  delete_bucket = λ bucket s. (ok tt, λ b k. if beq bucket b then none else s b k);
  bucket_exists = λ bucket s. (ok true, s);
  list_objects = λ bucket prefix marker n. refused;
  list_objects_with_delimiter = λ bucket prefix marker delimiter n. refused;
  get_object = λ bucket key s. (fetch s bucket key, s);
  put_object = λ bucket key reader size metadata s.
      (ok tt, stored bucket key (some (record (object reader.content) { metadata = metadata })) s);
  delete_object = λ bucket key s. (ok tt, stored bucket key none s);
  head_object = λ bucket key s. (found_or (info_of key) (s bucket key), s);
  get_object_acl = λ bucket key. refused;
  put_object_acl = λ bucket key acl. refused;
  initiate_multipart_upload = λ bucket key metadata. refused;
  upload_part = λ bucket key id n reader size. refused;
  complete_multipart_upload =
      λ bucket key id parts s. (ok tt, stored bucket key (some (object id)) s);
  abort_multipart_upload = λ bucket key id. refused;
  list_parts = λ bucket key id n marker. refused;
}

pub memory-ReadsKeep : ReadsKeep memory
unfolding memory
memory-ReadsKeep = record {
  get_object = λ bucket key s. refl;
  head_object = λ bucket key s. refl;
  bucket_exists = λ bucket s. refl;
  list_objects_with_delimiter = λ bucket prefix marker delimiter n s. refl;
  get_object_acl = λ bucket key s. refl;
  list_parts = λ bucket key upload_id n marker s. refl;
}

fetch-stored :
    (bucket key b k : Bytes) (obj : Option Object) (s : Objects)
    → (beq bucket b && beq key k) ≡ false
    → fetch (stored bucket key obj s) b k ≡ fetch s b k
fetch-stored bucket key b [] obj s h = refl
fetch-stored bucket key b (c ∷ k) obj s h = rw h refl

fetch-dropped :
    (bucket b k : Bytes) (s : Objects)
    → beq bucket b ≡ false
    → fetch (λ b k. if beq bucket b then none else s b k) b k ≡ fetch s b k
fetch-dropped bucket b [] s h = refl
fetch-dropped bucket b (c ∷ k) s h = rw h refl

pub memory-Isolates : Isolates memory
unfolding memory
memory-Isolates = record {
  put_other = λ bucket key b k reader size metadata s h. fetch-stored bucket key b k _ s h;
  put_failed = λ bucket key b k reader size metadata s message h. absurd (ground arith);
  delete_other = λ bucket key b k s h. fetch-stored bucket key b k none s h;
  delete_failed = λ bucket key b k s message h. absurd (ground arith);
  delete_bucket_other = λ bucket b k s h. fetch-dropped bucket b k s h;
  delete_bucket_failed = λ bucket b k s message h. absurd (ground arith);
  empty_key = λ bucket s obj h. absurd (ground arith);
}

fetch-stored_self :
    (bucket key : Bytes) (obj : Object) (s : Objects)
    → is_empty key ≡ false
    → fetch (stored bucket key (some obj) s) bucket key ≡ ok obj
unfolding is_empty found_or
fetch-stored_self bucket [] obj s filled = absurd (ground arith)
fetch-stored_self bucket (c ∷ key) obj s filled = rw (beq_refl bucket, beq_refl (c ∷ key)) refl

pub memory-Stores : Stores memory
unfolding memory
memory-Stores = record {
  accepts = λ bucket key reader size metadata s sound. refl;
  stored = λ bucket key reader size metadata s filled sound. (
    record (object reader.content) { metadata = metadata },
    fetch-stored_self bucket key (record (object reader.content) { metadata = metadata }) s filled,
    refl,
    refl,
    refl,
  );
}
