-- ===== src/FileSystem/Tree.antt =====
-- The files that internal/storage/filesystem.go works on, and the calls of Go's package os that it
-- makes, as functions on a tree of folders. The entries of a folder stand in the order of their names,
-- in which `os.ReadDir` and `filepath.Walk` give them. Errors that do not follow from the tree
-- (permissions, a full disk) are left out.
pub mod Names
pub mod Inside
pub mod Frames
pub mod Folders
pub mod Runs
use s3proxy_go.Base.{
  ℕ, Bool, true, false, if◌then◌else◌, ltb, ◌==◌, Bytes, beq, List, [], ◌∷◌, ◌++◌, Option, none,
  some, Result, ok, err,
}

-- a file has the time of its last change and its bytes, a folder the time of its last change
mutual
  pub data Node : Type 0 where
    file : ℕ → Bytes → Node
    folder : ℕ → Entries → Node

  pub data Entries : Type 0 where
    end : Entries
    entry : Bytes → Node → Entries → Entries

pub data Errno : Type 0 where
  no_entry : Errno
  not_a_directory : Errno
  is_a_directory : Errno
  not_empty : Errno

-- an absolute path, or one that begins at a folder, as its names
abbrev pub FilePath : Type 0
FilePath = List Bytes

-- `a < b` on strings
unfoldable pub bytes_ltb : Bytes → Bytes → Bool
bytes_ltb a [] = false
bytes_ltb [] (y ∷ b) = true
bytes_ltb (x ∷ a) (y ∷ b) = if x == y then bytes_ltb a b else ltb x y

unfoldable pub find : Bytes → Entries → Option Node
unfolding beq
find k end = none
find k (entry j n es) = if beq j k then some n else find k es

unfoldable pub set : Bytes → Node → Entries → Entries
unfolding beq bytes_ltb
set k n end = entry k n end
set k n (entry j m es) =
    if beq j k
    then entry k n es
    else if bytes_ltb k j
    then entry k n (entry j m es)
    else entry j m (set k n es)

unfoldable pub unset : Bytes → Entries → Entries
unfolding beq
unset k end = end
unset k (entry j m es) = let rest = unset k es in if beq j k then rest else entry j m rest

abbrev pub entered : {A : Type 0} → (Node → Result Errno A) → Option Node → Result Errno A
entered f none = err no_entry
entered f (some n) = f n

-- what stands at a path
unfoldable pub resolve : FilePath → Node → Result Errno Node
unfolding find
resolve [] n = ok n
resolve (c ∷ p) (file t b) = err not_a_directory
resolve (c ∷ p) (folder t es) = entered (resolve p) (find c es)

-- an entry of a folder changes: what is under its name before and after. A folder's own time changes
-- where a name comes or goes.
abbrev pub placed : ℕ → ℕ → Bytes → Entries → Option Node → Option Node → Node
placed now t c es (some m) (some n) = folder t (set c n es)
placed now t c es none (some n) = folder now (set c n es)
placed now t c es (some m) none = folder now (unset c es)
placed now t c es none none = folder t es

abbrev pub then_place : (Option Node → Node) → Result Errno (Option Node) → Result Errno Node
then_place f (ok o) = ok (f o)
then_place f (err e) = err e

abbrev pub put_back : ℕ → Bytes → Entries → Result Errno Node → Result Errno Node
put_back t c es (ok n) = ok (folder t (set c n es))
put_back t c es (err e) = err e

abbrev pub Edit : Type 0
Edit = Option Node → Result Errno (Option Node)

-- a call that changes what stands at a path
unfoldable pub alter : ℕ → Edit → FilePath → Node → Result Errno Node
unfolding find set unset
alter now edit [] n = err is_a_directory
alter now edit (c ∷ p) (file t b) = err not_a_directory
alter now edit (c ∷ []) (folder t es) =
    then_place (placed now t c es (find c es)) (edit (find c es))
alter now edit (c ∷ d ∷ p) (folder t es) =
    entered (λ m. put_back t c es (alter now edit (d ∷ p) m)) (find c es)

-- `os.Create`, which empties a file that is there
unfoldable pub created : ℕ → Edit
created now none = ok (some (file now []))
created now (some (file t b)) = ok (some (file now []))
created now (some (folder t es)) = err is_a_directory

-- bytes written to the end of an open file
unfoldable pub appended : ℕ → Bytes → Edit
appended now more none = err no_entry
appended now more (some (file t b)) = ok (some (file now (b ++ more)))
appended now more (some (folder t es)) = err is_a_directory

-- `os.WriteFile`
unfoldable pub written : ℕ → Bytes → Edit
written now content none = ok (some (file now content))
written now content (some (file t b)) = ok (some (file now content))
written now content (some (folder t es)) = err is_a_directory

-- `os.Remove`, which takes a folder only if it is empty
unfoldable pub removed : Edit
removed none = err no_entry
removed (some (file t b)) = ok none
removed (some (folder t end)) = ok none
removed (some (folder t (entry c n es))) = err not_empty

-- `os.RemoveAll`
unfoldable pub cleared : Edit
cleared o = ok none

-- `os.RemoveAll` takes a missing folder on the way for success
abbrev pub unless_missing : Node → Result Errno Node → Result Errno Node
unless_missing n (ok n') = ok n'
unless_missing n (err no_entry) = ok n
unless_missing n (err not_a_directory) = err not_a_directory
unless_missing n (err is_a_directory) = err is_a_directory
unless_missing n (err not_empty) = err not_empty

-- a new folder with new folders inside
unfoldable pub fresh : ℕ → FilePath → Node
fresh now [] = folder now end
fresh now (c ∷ p) = folder now (entry c (fresh now p) end)

abbrev pub made :
    ℕ
    → ℕ
    → Bytes
    → FilePath
    → Entries
    → (Node → Result Errno Node)
    → Option Node
    → Result Errno Node
made now t c p es below none = ok (folder now (set c (fresh now p) es))
made now t c p es below (some m) = put_back t c es (below m)

-- `os.MkdirAll`
unfoldable pub mkdir_all : ℕ → FilePath → Node → Result Errno Node
unfolding find set fresh
mkdir_all now [] (file t b) = err not_a_directory
mkdir_all now [] (folder t es) = ok (folder t es)
mkdir_all now (c ∷ p) (file t b) = err not_a_directory
mkdir_all now (c ∷ p) (folder t es) = made now t c p es (mkdir_all now p) (find c es)

-- `os.ReadDir`
unfoldable pub entries_of : Entries → List (Bytes × Node)
entries_of end = []
entries_of (entry c n es) = (c, n) ∷ entries_of es

-- the paths that `filepath.Walk` visits, from its root
unfoldable mutual
  pub walk : FilePath → Node → List (FilePath × Node)
  walk p (file t b) = (p, file t b) ∷ []
  walk p (folder t es) = (p, folder t es) ∷ walk_entries p es

  walk_entries : FilePath → Entries → List (FilePath × Node)
  walk_entries p end = []
  walk_entries p (entry c n es) = walk (p ++ c ∷ []) n ++ walk_entries p es
