-- ===== src/FileSystem/Listing/Bounds.antt =====
-- The size of a listing of `ListObjectsWithDelimiter` and its common prefixes.
use s3proxy_go.Base.{
  ℕ, ◌+◌, ◌≤◌, ◌<◌, Bool, true, false, ◌||◌, if◌then◌else◌, Bytes, beq, beq_iff, has_prefix,
  has_prefix-append, List, [], ◌∷◌, ◌++◌, Option, none, some, ok, ◌≡◌, ◌↔◌, refl, subst, arith, pos,
  leb_ℤ, length, inl, inr, Bool-cases, length-append, is_empty, index, take, drop, lit, has_suffix,
}
use s3proxy_go.Storage.Backend.{ObjectInfo, ListObjectsResult}
use s3proxy_go.FileSystem.Tree.{Node, FilePath, resolve}
use s3proxy_go.FileSystem.Paths.{join, key_of}
use s3proxy_go.FileSystem.Disk.{Disk, Host, is_dir}
use s3proxy_go.FileSystem.Objects.{bucket_path, info_at}
use s3proxy_go.FileSystem.Listing.{
  grouped, visited, Listing, no_listing, common_prefix, add_key, add_file, add_object, add_prefix,
  member, visit, visit_all, list_objects_with_delimiter,
}

-- the common prefixes begin with the prefix that was asked for
abbrev pub AllBegin : Bytes → List Bytes → Type 0
AllBegin prefix [] = Unit
AllBegin prefix (p ∷ ps) = (has_prefix p prefix ≡ true) × AllBegin prefix ps

-- no text stands twice
abbrev pub AllDiffer : List Bytes → Type 0
AllDiffer [] = Unit
AllDiffer (p ∷ ps) = (member p ps ≡ false) × AllDiffer ps

AllBegin-append :
    (prefix p : Bytes) (ps : List Bytes)
    → has_prefix p prefix ≡ true
    → AllBegin prefix ps
    → AllBegin prefix (ps ++ p ∷ [])
AllBegin-append prefix p [] h all = (h, tt)
AllBegin-append prefix p (q ∷ ps) h (first, all) = (first, AllBegin-append prefix p ps h all)

member-append :
    (x p : Bytes) (ps : List Bytes)
    → beq p x ≡ false
    → member x ps ≡ false
    → member x (ps ++ p ∷ []) ≡ false
unfolding member
member-append x p [] h out = ground (arith, beq_iff x p, beq_iff p x)
member-append x p (q ∷ ps) h out = ground (arith, member-append x p ps)

AllDiffer-append :
    (p : Bytes) (ps : List Bytes) → member p ps ≡ false → AllDiffer ps → AllDiffer (ps ++ p ∷ [])
unfolding member
AllDiffer-append p [] out all = (refl, tt)
AllDiffer-append p (q ∷ ps) out (first, all) = (
  member-append q p ps (ground (arith, out)) first,
  AllDiffer-append p ps (ground (arith, out)) all,
)

module _ (limit : ℕ) (prefix : Bytes) where
  -- what the callback keeps true
  pub record IsWithin (l : Listing) : Type 0 where
    pub counted : length l.contents + length l.common_prefixes ≡ l.count
    pub bounded : l.count ≤ limit
    pub begin : AllBegin prefix l.common_prefixes
    pub differ : AllDiffer l.common_prefixes

  add_object-IsWithin :
      (info : ObjectInfo) (l : Listing)
      → l.count < limit
      → IsWithin l
      → IsWithin (add_object info l)
  unfolding add_object
  add_object-IsWithin info l room h = record {
    counted = omega (arith, h.counted, length-append l.contents (info ∷ []));
    bounded = omega (arith, room);
    begin = h.begin;
    differ = h.differ;
  }

  add_prefix-IsWithin :
      (p : Bytes) (l : Listing)
      → has_prefix p prefix ≡ true
      → l.count < limit
      → IsWithin l
      → IsWithin (add_prefix p l)
  unfolding add_prefix
  add_prefix-IsWithin p l begins room h = elim (Bool-cases (member p l.common_prefixes)) [
    | inl e ↦ rw e h
    | inr e ↦ rw e (record {
      counted = omega (arith, h.counted, length-append l.common_prefixes (p ∷ []));
      bounded = omega (arith, room);
      begin = AllBegin-append prefix p l.common_prefixes begins h.begin;
      differ = AllDiffer-append p l.common_prefixes e h.differ;
    })
  ]

  grouped-begins :
      (b : Bool) (o : Option ℕ) (after delimiter p : Bytes)
      → (if b then none else grouped prefix after delimiter o) ≡ some p
      → has_prefix p prefix ≡ true
  grouped-begins true o after delimiter p h = cc
  grouped-begins false none after delimiter p h = cc
  grouped-begins false (some i) after delimiter p h =
      let same : prefix ++ take (i + length delimiter) after ≡ p = cc h in
      subst (λ q. has_prefix q prefix ≡ true) same
        (has_prefix-append prefix (take (i + length delimiter) after))

  -- a common prefix that is found begins with the prefix
  common_prefix-begins :
      (delimiter key p : Bytes)
      → common_prefix prefix delimiter key ≡ some p
      → has_prefix p prefix ≡ true
  unfolding common_prefix
  common_prefix-begins delimiter key p h =
      let after = drop (length prefix) key in
      grouped-begins (is_empty delimiter) (index after delimiter) after delimiter p h

  add_key-IsWithin :
      (skipped : Bool) (o : Option Bytes) (dir : Bool) (key : Bytes) (info : ObjectInfo)
      (l : Listing)
      → ((p : Bytes) → o ≡ some p → has_prefix p prefix ≡ true)
      → (skipped ≡ false → l.count < limit)
      → IsWithin l
      → IsWithin (if skipped then l else add_key o dir key info l)
  unfolding add_key add_file
  add_key-IsWithin true o dir key info l begins room h = h
  add_key-IsWithin false (some p) dir key info l begins room h =
      add_prefix-IsWithin p l (begins p refl) (room refl) h
  add_key-IsWithin false none true key info l begins room h = h
  add_key-IsWithin false none false key info l begins room h =
      elim (Bool-cases (has_suffix key (lit ".meta"))) [
        | inl e ↦ rw e h
        | inr e ↦ rw e (add_object-IsWithin info l (room refl) h)
      ]

module _ (host : Host) (base : FilePath) (bucket prefix marker delimiter : Bytes) (limit : ℕ)
    (d : Disk) where
  visit-IsWithin :
      (x : FilePath × Node) (l : Listing)
      → IsWithin limit prefix l
      → IsWithin limit prefix (visit host base bucket prefix marker delimiter (pos limit) d x l)
  unfolding visit
  visit-IsWithin (p, n) l h =
      add_key-IsWithin limit prefix _ (common_prefix prefix delimiter (key_of p)) (is_dir n)
        (key_of p)
        (info_at host base (join (bucket_path host base bucket) (key_of p ∷ [])) (key_of p) n d) l
        (common_prefix-begins limit prefix delimiter (key_of p))
        (room-left (leb_ℤ (pos limit) (pos l.count)) _ l refl) h
    where
      room-left :
          (full other : Bool) (l : Listing)
          → leb_ℤ (pos limit) (pos l.count) ≡ full
          → (full || other) ≡ false
          → l.count < limit
      room-left true other l e h = cc
      room-left false other l e h = ground (arith, e)

  visit_all-IsWithin :
      (xs : List (FilePath × Node)) (l : Listing)
      → IsWithin limit prefix l
      → IsWithin limit prefix
          (visit_all host base bucket prefix marker delimiter (pos limit) d xs l)
  unfolding visit_all
  visit_all-IsWithin [] l h = h
  visit_all-IsWithin (x ∷ xs) l h = visit_all-IsWithin xs _ (visit-IsWithin x l h)

  -- A listing has no more objects and common prefixes together than were asked for; its common
  -- prefixes begin with the prefix of the request, and none of them stands twice; and it is marked as
  -- truncated exactly where it has as many as were asked for, also where nothing is left.
  pub list_objects_with_delimiter_bounds :
      (result : ListObjectsResult) × (list_objects_with_delimiter host base bucket prefix marker
          delimiter
          (pos limit)
          d
        ≡ (ok result, d))
      × (length result.contents + length result.common_prefixes ≤ limit)
      × AllBegin prefix result.common_prefixes
      × AllDiffer result.common_prefixes
      × ((result.is_truncated ≡ true)
          ↔ (length result.contents + length result.common_prefixes ≡ limit))
  unfolding list_objects_with_delimiter
  list_objects_with_delimiter_bounds =
      let xs = visited host base (resolve (bucket_path host base bucket) d.root) in
      let l = visit_all host base bucket prefix marker delimiter (pos limit) d xs no_listing in
      let w =
        visit_all-IsWithin xs no_listing
          (record { counted = refl; bounded = omega arith; begin = tt; differ = tt }) in
      (
        record {
          is_truncated = leb_ℤ (pos limit) (pos l.count);
          contents = l.contents;
          next_marker = [];
          common_prefixes = l.common_prefixes;
        },
        refl,
        omega (arith, w.counted, w.bounded),
        w.begin,
        w.differ,
        ground (arith, w.counted, w.bounded),
      )
