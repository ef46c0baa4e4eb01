-- ===== src/FileSystem/Disk/Steps.antt =====
-- What it says of the first step of an action that the action succeeded.
use s3proxy_go.Base.{Bool, true, false, Bytes, Result, ok, err, ◌≡◌, refl}
use s3proxy_go.Storage.Backend.{Action, Reader}
use s3proxy_go.FileSystem.Tree.{Node, Errno, FilePath, alter, appended, created, resolve, mkdir_all}
use s3proxy_go.FileSystem.Disk.{
  Disk, Host, ◌>>=◌, ◌>>◌, wrap, committed, looked, ended, copied, os_mkdir_all, os_create, os_open,
}

change-ok :
    {B : Type 0} (context : Bytes) (text : Errno → Bytes) (d : Disk) (r : Result Errno Node)
    (k : Action Disk B) (b : B) (d' : Disk)
    → (wrap context (λ d. committed text d r) >> k) d ≡ (ok b, d')
    → (n : Node) × (r ≡ ok n) × (k (record d { root = n }) ≡ (ok b, d'))
change-ok context text d (ok n) k b d' h = (n, refl, h)
change-ok context text d (err e) k b d' h = cc

copy-end :
    {B : Type 0} (context : Bytes) (text : Errno → Bytes) (d : Disk) (r : Result Errno Node)
    (fails : Bool) (k : Action Disk B) (b : B) (d' : Disk)
    → (wrap context ((λ d. committed text d r) >> ended fails) >> k) d ≡ (ok b, d')
    → (n : Node) × (r ≡ ok n) × (fails ≡ false) × (k (record d { root = n }) ≡ (ok b, d'))
copy-end context text d (ok n) false k b d' h = (n, refl, refl, h)
copy-end context text d (ok n) true k b d' h = cc
copy-end context text d (err e) fails k b d' h = cc

look-ok :
    {A B : Type 0} (context : Bytes) (text : Errno → Bytes) (d : Disk) (r : Result Errno A)
    (k : A → Action Disk B) (b : B) (d' : Disk)
    → (wrap context (λ d. looked text d r) >>= k) d ≡ (ok b, d')
    → (a : A) × (r ≡ ok a) × (k a d ≡ (ok b, d'))
look-ok context text d (ok n) k b d' h = (n, refl, h)
look-ok context text d (err e) k b d' h = cc

module _ (host : Host) {B : Type 0} (context : Bytes) (p : FilePath) (k : Action Disk B) (d : Disk)
    (b : B) (d' : Disk) where
  pub mkdir_all-ok :
      (wrap context (os_mkdir_all host p) >> k) d ≡ (ok b, d')
      → (n : Node) × (mkdir_all d.now p d.root ≡ ok n) × (k (record d { root = n }) ≡ (ok b, d'))
  unfolding os_mkdir_all
  mkdir_all-ok h = change-ok context _ d _ k b d' h

  pub create-ok :
      (wrap context (os_create host p) >> k) d ≡ (ok b, d')
      → (n : Node) × (alter d.now (created d.now) p d.root ≡ ok n)
        × (k (record d { root = n }) ≡ (ok b, d'))
  unfolding os_create
  create-ok h = change-ok context _ d _ k b d' h

  -- a copy that succeeds has read everything
  pub copied-ok :
      (reader : Reader)
      → (wrap context (copied host p reader) >> k) d ≡ (ok b, d')
      → (n : Node) × (alter d.now (appended d.now reader.content) p d.root ≡ ok n)
        × (reader.fails ≡ false)
        × (k (record d { root = n }) ≡ (ok b, d'))
  unfolding copied
  copied-ok reader h = copy-end context _ d _ reader.fails k b d' h

module _ (host : Host) {B : Type 0} (context : Bytes) (p : FilePath) (k : Node → Action Disk B)
    (d : Disk) (b : B) (d' : Disk) where
  pub open-ok :
      (wrap context (os_open host p) >>= k) d ≡ (ok b, d')
      → (n : Node) × (resolve p d.root ≡ ok n) × (k n d ≡ (ok b, d'))
  unfolding os_open
  open-ok h = look-ok context _ d _ k b d' h
