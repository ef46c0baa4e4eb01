-- ===== src/FileSystem/Tree/Names.antt =====
-- The entries of a folder as a map.
use s3proxy_go.Base.{if◌then◌else◌, Bytes, beq, beq_iff, none, some, ◌≡◌, refl, arith}
use s3proxy_go.FileSystem.Tree.{Node, Entries, end, entry, find, set, unset}

pub find-set :
    (k j : Bytes) (n : Node) (es : Entries)
    → find j (set k n es) ≡ (if beq k j then some n else find j es)
unfolding find set
find-set k j n end = refl
find-set k j n (entry i m es) =
    ground (arith, beq_iff k j, beq_iff i k, beq_iff i j, find-set k j n es)

pub find-unset :
    (k j : Bytes) (es : Entries) → find j (unset k es) ≡ (if beq k j then none else find j es)
unfolding find unset
find-unset k j end = ground arith
find-unset k j (entry i m es) =
    ground (arith, beq_iff k j, beq_iff i k, beq_iff i j, find-unset k j es)
