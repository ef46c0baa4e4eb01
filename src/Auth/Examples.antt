-- ===== src/Auth/Examples.antt =====
-- Concrete requests for the theorems about internal/auth/provider.go.
use s3proxy_go.Base.{none, [], ◌∷◌, ◌++◌, Bytes, lit, ok, ◌≡◌, ◌↔◌, refl}
use s3proxy_go.Auth.{Request, Credentials, header, v2_signature, authenticate_v2}
use s3proxy_go.Auth.Signatures.{authenticate_v2_accepts}

abbrev hmac_hex : Bytes → Bytes → Bytes
hmac_hex key text = key ++ text

abbrev credentials : Credentials
credentials = record { identity = lit "id"; credential = lit "secret" }

abbrev request : Request
request = record {
  method = lit "GET";
  path = lit "/b/k";
  raw_query = [];
  headers = (lit "authorization", lit "AWS id:s" ∷ []) ∷ [];
  basic_auth = none;
}

authenticate_v2_accepts_example : (authenticate_v2 hmac_hex credentials request ≡ ok tt) ↔ (
    header (lit "authorization") request
    ≡ lit "AWS " ++ (lit "id" ++ b':' ∷ v2_signature hmac_hex credentials request))
authenticate_v2_accepts_example =
    authenticate_v2_accepts hmac_hex credentials request (refl, (refl, tt))
