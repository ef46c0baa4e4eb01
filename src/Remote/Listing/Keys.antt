-- ===== src/Remote/Listing/Keys.antt =====
-- The keys that a listing of a virtual bucket tells the client.
use s3proxy_go.Base.{false, Bytes, List, [], ◌∷◌, ◌++◌, ◌≡◌}
use s3proxy_go.Storage.Backend.{ObjectInfo}
use s3proxy_go.Remote.Sdk.{SdkObject, value_or}
use s3proxy_go.Remote.Listing.{is_folder}

-- the response has the object under that key
pub data Holds (real : Bytes) : List SdkObject → Type 0 where
  at_head : (o : SdkObject) (os : List SdkObject) → value_or [] o.key ≡ real → Holds real (o ∷ os)
  behind : (o : SdkObject) (os : List SdkObject) → Holds real os → Holds real (o ∷ os)

-- each listed object is one of the response, whose key is the prefix of the bucket and the listed key;
-- and none stands for a folder where folders are grouped
abbrev pub AllHeld : Bytes → Bytes → List SdkObject → List ObjectInfo → Type 0
AllHeld prefix delimiter os [] = Unit
AllHeld prefix delimiter os (i ∷ is) =
    Holds (prefix ++ i.key) os
    × (is_folder delimiter i.key ≡ false)
    × AllHeld prefix delimiter os is
