-- ===== src/FileSystem/Listing/Complete.antt =====
-- What `ListObjectsWithDelimiter` of the file system backend lists: the code against a filter of the
-- walk.
use s3proxy_go.Base.{
  Bool, true, false, not, ◌&&◌, ◌||◌, if◌then◌else◌, Bytes, beq, lit, has_prefix, has_suffix, List,
  [], ◌∷◌, ◌++◌, map, Option, none, some, ok, ◌≡◌, refl, sym, ap, ◌∙◌, ℤ, pos, leb_ℤ, inl, inr,
  Bool-cases,
}
use mathlib.Core.List.{append_assoc}
use s3proxy_go.Storage.Backend.{ObjectInfo, ListObjectsResult}
use s3proxy_go.FileSystem.Tree.{Node, FilePath, resolve, walk}
use s3proxy_go.FileSystem.Paths.{join, key_of}
use s3proxy_go.FileSystem.Disk.{Disk, Host, is_dir}
use s3proxy_go.FileSystem.Objects.{bucket_path, info_at}
use s3proxy_go.FileSystem.Listing.{
  Listing, no_listing, up_to, common_prefix, add_key, add_file, add_object, add_prefix, member,
  visit, visit_all, list_objects_with_delimiter,
}

abbrev pub is_none : {A : Type 0} → Option A → Bool
is_none none = true
is_none (some a) = false

-- a file that belongs into a listing: under the prefix, behind the marker, not grouped under a common
-- prefix, and no metadata file
abbrev pub is_shown : Bytes → Bytes → Bytes → FilePath × Node → Bool
is_shown prefix marker delimiter (p, n) =
    not
      (beq (key_of p) (lit ".") || (not (has_prefix (key_of p) prefix) || up_to marker (key_of p)))
    && (is_none (common_prefix prefix delimiter (key_of p))
        && (not (is_dir n) && not (has_suffix (key_of p) (lit ".meta"))))

-- the entries of a list that pass a test
abbrev pub filter : {A : Type 0} → (A → Bool) → List A → List A
filter test [] = []
filter test (x ∷ xs) = if test x then x ∷ filter test xs else filter test xs

add_file-contents :
    (dir : Bool) (key : Bytes) (info : ObjectInfo) (l : Listing) (rest : List ObjectInfo)
    → (add_file dir key info l).contents ++ rest
      ≡ l.contents ++ (if not dir && not (has_suffix key (lit ".meta")) then info ∷ rest else rest)
unfolding add_file add_object
add_file-contents true key info l rest = refl
add_file-contents false key info l rest = elim (Bool-cases (has_suffix key (lit ".meta"))) [
  | inl h ↦ rw h refl
  | inr h ↦ rw h (append_assoc l.contents (info ∷ []) rest)
]

add_prefix-contents : (p : Bytes) (l : Listing) → (add_prefix p l).contents ≡ l.contents
unfolding add_prefix
add_prefix-contents p l = elim (Bool-cases (member p l.common_prefixes)) [
  | inl h ↦ rw h refl
  | inr h ↦ rw h refl
]

add_key-contents :
    (skipped : Bool) (o : Option Bytes) (dir : Bool) (key : Bytes) (info : ObjectInfo) (l : Listing)
    (rest : List ObjectInfo)
    → (if skipped then l else add_key o dir key info l).contents ++ rest
      ≡ l.contents
        ++ (if not skipped && (is_none o && (not dir && not (has_suffix key (lit ".meta"))))
            then info ∷ rest
            else rest)
unfolding add_key
add_key-contents true o dir key info l rest = refl
add_key-contents false none dir key info l rest = add_file-contents dir key info l rest
add_key-contents false (some p) dir key info l rest = ap (λ x. x ++ rest) (add_prefix-contents p l)

-- of the list of the shown objects, the first
map_filter :
    {A B : Type 0} (b : Bool) (f : A → B) (x : A) (xs : List A)
    → map f (if b then x ∷ xs else xs) ≡ (if b then f x ∷ map f xs else map f xs)
map_filter true f x xs = refl
map_filter false f x xs = refl

module _ (host : Host) (base : FilePath) (bucket prefix marker delimiter : Bytes) (max_keys : ℤ)
    (d : Disk) where
  abbrev pub info_of : FilePath × Node → ObjectInfo
  info_of (p, n) =
      info_at host base (join (bucket_path host base bucket) (key_of p ∷ [])) (key_of p) n d

  -- the objects of a walk that belong into the listing
  abbrev pub shown : List (FilePath × Node) → List ObjectInfo
  shown xs = map info_of (filter (is_shown prefix marker delimiter) xs)

  stopped :
      (xs : List (FilePath × Node)) (l : Listing)
      → leb_ℤ max_keys (pos l.count) ≡ true
      → visit_all host base bucket prefix marker delimiter max_keys d xs l ≡ l
  unfolding visit_all visit
  stopped [] l full = refl
  stopped ((p, n) ∷ xs) l full = rw full (stopped xs l full)

  -- one visit below the limit
  visit-contents :
      (x : FilePath × Node) (xs : List (FilePath × Node)) (l : Listing)
      → leb_ℤ max_keys (pos l.count) ≡ false
      → (visit host base bucket prefix marker delimiter max_keys d x l).contents ++ shown xs
        ≡ l.contents ++ shown (x ∷ xs)
  unfolding visit
  visit-contents (p, n) xs l room = rw (room) (
      add_key-contents _ (common_prefix prefix delimiter (key_of p)) (is_dir n) (key_of p)
        (info_of (p, n)) l (shown xs)
      ∙ ap (λ x. l.contents ++ x)
          (sym (
            map_filter (is_shown prefix marker delimiter (p, n)) info_of (p, n)
              (filter (is_shown prefix marker delimiter) xs))))

  visit_all-contents :
      (xs : List (FilePath × Node)) (l : Listing)
      → (rest : List ObjectInfo) × (l.contents ++ shown xs
          ≡ (visit_all host base bucket prefix marker delimiter max_keys d xs l).contents ++ rest)
        × (leb_ℤ max_keys
                (pos (visit_all host base bucket prefix marker delimiter max_keys d xs l).count)
              ≡ false
            → rest ≡ [])
  unfolding visit_all
  visit_all-contents [] l = ([], refl, λ h. refl)
  visit_all-contents (x ∷ xs) l = elim (Bool-cases (leb_ℤ max_keys (pos l.count))) [
    | inl full ↦ (
      shown (x ∷ xs),
      ap (λ (s : Listing). s.contents ++ shown (x ∷ xs)) (sym (stopped (x ∷ xs) l full)),
      λ room. absurd (
          cc (
            room,
            ap (λ (s : Listing). leb_ℤ max_keys (pos s.count)) (stopped (x ∷ xs) l full),
            full,
          )),
    )
    | inr room ↦
        let (rest, all, none_left) =
          visit_all-contents xs (visit host base bucket prefix marker delimiter max_keys d x l) in
        (rest, sym (visit-contents x xs l room) ∙ all, none_left)
  ]

-- A listing of a bucket that is there has, in the order of the walk, the objects of the files that
-- belong into it: those under the prefix, behind the marker, not grouped by the delimiter and not
-- named as metadata files. Where it ends early it has the first of them, and then it is marked as
-- truncated: a listing that is not marked has them all. Nothing changes.
pub list_objects_with_delimiter-shown :
    (host : Host) (base : FilePath) (bucket prefix marker delimiter : Bytes) (max_keys : ℤ)
    (d : Disk) (n : Node)
    → resolve (bucket_path host base bucket) d.root ≡ ok n
    → (result : ListObjectsResult) × (rest : List ObjectInfo) × (list_objects_with_delimiter host
          base bucket prefix marker delimiter max_keys d
        ≡ (ok result, d))
      × (shown host base bucket prefix marker delimiter max_keys d (walk [] n)
          ≡ result.contents ++ rest)
      × (result.is_truncated ≡ false → rest ≡ [])
unfolding list_objects_with_delimiter
list_objects_with_delimiter-shown host base bucket prefix marker delimiter max_keys d n there =
    let (rest, all, none_left) =
      visit_all-contents host base bucket prefix marker delimiter max_keys d (walk [] n)
        no_listing in
    let l = visit_all host base bucket prefix marker delimiter max_keys d (walk [] n) no_listing in
    (
      record {
        is_truncated = leb_ℤ max_keys (pos l.count);
        contents = l.contents;
        next_marker = [];
        common_prefixes = l.common_prefixes;
      },
      rest,
      simp there,
      all,
      none_left,
    )
