-- ===== src/FileSystem/Paths.antt =====
-- `filepath.Join`, `filepath.Dir` and `filepath.ToSlash` as internal/storage/filesystem.go uses them.
use s3proxy_go.Base.{if◌then◌else◌, Bytes, beq, lit, split, is_empty, List, [], ◌∷◌, ◌++◌, ◌||◌}
use s3proxy_go.FileSystem.Tree.{FilePath}

-- `filepath.Dir` of a clean path
unfoldable pub parent : FilePath → FilePath
parent [] = []
parent (c ∷ []) = []
parent (c ∷ d ∷ p) = c ∷ parent (d ∷ p)

-- one name of a text is taken up into a clean path: "." and "" stay, ".." goes up
unfoldable pub descend : FilePath → Bytes → FilePath
unfolding beq is_empty parent
descend p c =
    if is_empty c || beq c (lit ".") then p else if beq c (lit "..") then parent p else p ++ c ∷ []

unfoldable pub descend_all : FilePath → List Bytes → FilePath
unfolding descend
descend_all p [] = p
descend_all p (c ∷ cs) = descend_all (descend p c) cs

-- `filepath.Join` of a clean absolute path and further texts
unfoldable pub join : FilePath → List Bytes → FilePath
unfolding descend_all split
join p [] = p
join p (s ∷ more) = join (descend_all p (split s (lit "/"))) more

-- a path with ".meta" behind its last name
unfoldable pub meta_path : FilePath → FilePath
meta_path [] = lit ".meta" ∷ []
meta_path (c ∷ []) = (c ++ lit ".meta") ∷ []
meta_path (c ∷ d ∷ p) = c ∷ meta_path (d ∷ p)

-- `filepath.ToSlash` of the path inside a bucket
unfoldable pub key_of : FilePath → Bytes
key_of [] = lit "."
key_of (c ∷ []) = c
key_of (c ∷ d ∷ p) = c ++ b'/' ∷ key_of (d ∷ p)
