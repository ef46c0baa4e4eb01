-- ===== src/FileSystem/Disk.antt =====
-- The calls of package os that internal/storage/filesystem.go makes, as actions on a disk: the tree of
-- files and the time. The time stands still during a call of the backend.
pub mod Steps
use s3proxy_go.Base.{
  ℕ, zero, suc, Bool, true, false, if◌then◌else◌, Bytes, lit, Dict, List, [], ◌∷◌, Result, ok, err,
  length, ◌++◌, is_empty, map_err,
}
pub use s3proxy_go.Storage.Steps.{◌>>=◌, ◌>>◌, and_then, wrap, wrapped, return}
use s3proxy_go.Storage.Backend.{Action, Reader}
use s3proxy_go.FileSystem.Tree.{
  Node, file, folder, Errno, is_a_directory, no_entry, not_a_directory, FilePath, Edit, resolve,
  alter, created, appended, written, removed, cleared, mkdir_all, unless_missing, Entries,
  entries_of,
}

pub record Disk : Type 0 where
  pub now : ℕ
  pub root : Node

pub data Call : Type 0 where
  mkdir : Call
  create : Call
  write : Call
  stat : Call
  open_file : Call
  read : Call
  remove : Call
  remove_tree : Call
  read_dir : Call

-- what the code leaves to others: the text of an error that a call reports for a path, the size of a
-- folder, JSON as written and as read into a map (with what was read before an error)
pub record Host : Type 0 where
  pub os_error : Node → Call → FilePath → Errno → Bytes
  pub folder_size : Node → ℕ
  pub marshal : Dict Bytes → Bytes
  pub unmarshal : Bytes → Dict Bytes

-- a call that changes the tree, or fails
abbrev pub committed : (Errno → Bytes) → Disk → Result Errno Node → Result Bytes (Unit {0}) × Disk
committed text d (ok n) = (ok tt, record d { root = n })
committed text d (err e) = (err (text e), d)

-- a call that reads the tree
abbrev pub looked : {A : Type 0} → (Errno → Bytes) → Disk → Result Errno A → Result Bytes A × Disk
looked text d r = (map_err text r, d)

-- the bytes that a file opened there gives; reading a folder fails
abbrev pub bytes_of : Node → Result Errno Bytes
bytes_of (file t b) = ok b
bytes_of (folder t es) = err is_a_directory

abbrev pub children : Node → Result Errno Entries
children (file t b) = err not_a_directory
children (folder t es) = ok es

abbrev pub is_dir : Node → Bool
is_dir (file t b) = false
is_dir (folder t es) = true

abbrev pub mod_time : Node → ℕ
mod_time (file t b) = t
mod_time (folder t es) = t

abbrev pub chained : {A B : Type 0} → (A → Result Errno B) → Result Errno A → Result Errno B
chained f (ok a) = f a
chained f (err e) = err e

-- the error of a reader
abbrev pub ended : Bool → Action Disk (Unit {0})
ended fails d = (if fails then err (lit "read failed") else ok tt, d)

module _ (host : Host) where
  unfoldable pub os_mkdir_all : FilePath → Action Disk (Unit {0})
  os_mkdir_all p d = committed (host.os_error d.root mkdir p) d (mkdir_all d.now p d.root)

  unfoldable pub os_create : FilePath → Action Disk (Unit {0})
  os_create p d = committed (host.os_error d.root create p) d (alter d.now (created d.now) p d.root)

  unfoldable pub os_append : FilePath → Bytes → Action Disk (Unit {0})
  os_append p more d =
      committed (host.os_error d.root write p) d (alter d.now (appended d.now more) p d.root)

  unfoldable pub os_write_file : FilePath → Bytes → Action Disk (Unit {0})
  os_write_file p content d =
      committed (host.os_error d.root write p) d (alter d.now (written d.now content) p d.root)

  unfoldable pub os_remove : FilePath → Disk → Result Errno Node
  os_remove p d = alter d.now removed p d.root

  unfoldable pub os_remove_all : FilePath → Action Disk (Unit {0})
  os_remove_all p d =
      committed (host.os_error d.root remove_tree p) d
        (unless_missing d.root (alter d.now cleared p d.root))

  unfoldable pub os_stat : FilePath → Action Disk Node
  os_stat p d = looked (host.os_error d.root stat p) d (resolve p d.root)

  unfoldable pub os_open : FilePath → Action Disk Node
  os_open p d = looked (host.os_error d.root open_file p) d (resolve p d.root)

  unfoldable pub os_read_dir : FilePath → Action Disk (List (Bytes × Node))
  os_read_dir p d =
      looked (host.os_error d.root read_dir p) d
        (chained (λ es. ok (entries_of es)) (chained children (resolve p d.root)))

  -- `io.CopyBuffer` from a reader to the end of a file: what the reader gives is written also where it
  -- then fails
  unfoldable pub copied : FilePath → Reader → Action Disk (Unit {0})
  unfolding os_append
  copied p reader = do os_append p reader.content; ended reader.fails

-- `os.ReadFile`
unfoldable pub os_read_file : FilePath → Disk → Result Errno Bytes
os_read_file p d = chained bytes_of (resolve p d.root)
