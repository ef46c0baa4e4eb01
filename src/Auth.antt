-- ===== src/Auth.antt =====
-- internal/auth/provider.go: who may send a request. The HMAC-SHA256 in hexadecimal is a parameter.
pub mod Fast
pub mod Signatures
mod Examples
use s3proxy_go.Base.{
  ℕ, zero, suc, ◌+◌, ◌*◌, ltb, leb, if◌then◌else◌, ◌&&◌, ◌||◌, not, Bool, true, false, Option, none,
  some, List, [], ◌∷◌, ◌++◌, Bytes, is_empty, beq, has_prefix, split, cut, drop, take, length, lit,
  Dict, lookup, insert, Result, ok, err,
}

-- header names in lower case with their values, and what `r.BasicAuth` finds
pub record Request : Type 0 where
  pub method : Bytes
  pub path : Bytes
  pub raw_query : Bytes
  pub headers : Dict (List Bytes)
  pub basic_auth : Option (Bytes × Bytes)

first_of : Option (List Bytes) → Bytes
first_of none = []
first_of (some []) = []
first_of (some (v ∷ values)) = v

-- `r.Header.Get`
unfoldable pub header : Bytes → Request → Bytes
unfolding first_of lookup
header name r = first_of (lookup name r.headers)

pub record Credentials : Type 0 where
  pub identity : Bytes
  pub credential : Bytes

pub data Provider : Type 0 where
  none_provider : Provider
  basic_provider aws_v2_provider aws_v4_provider : Credentials → Provider

with_credentials : (Credentials → Provider) → Credentials → Option Provider
unfolding is_empty
with_credentials make c =
    if is_empty c.identity || is_empty c.credential then none else some (make c)

-- `NewProvider`; `none` is an error
unfoldable pub new_provider : Bytes → Credentials → Option Provider
unfolding with_credentials beq
new_provider kind c =
    if beq kind (lit "none")
    then some none_provider
    else if beq kind (lit "basic")
    then with_credentials basic_provider c
    else if beq kind (lit "awsv2")
    then with_credentials aws_v2_provider c
    else if beq kind (lit "awsv4")
    then with_credentials aws_v4_provider c
    else none

abbrev pub Verdict : Type 0
Verdict = Result Bytes (Unit {0})

-- `BasicProvider.Authenticate`
unfoldable pub authenticate_basic : Credentials → Option (Bytes × Bytes) → Verdict
authenticate_basic c none = err (lit "missing basic auth credentials")
authenticate_basic c (some (user, password)) =
    if not (beq user c.identity) || not (beq password c.credential)
    then err (lit "invalid credentials")
    else ok tt

-- `strings.Join` with a comma
unfoldable pub join_values : List Bytes → Bytes
join_values [] = []
join_values (v ∷ []) = v
join_values (v ∷ w ∷ values) = v ++ (lit "," ++ join_values (w ∷ values))

-- the loop over the headers, in the order of the map
amz_headers : Dict (List Bytes) → Bytes
unfolding join_values has_prefix
amz_headers [] = []
amz_headers ((k, values) ∷ more) =
    let rest = amz_headers more in
    if has_prefix k (lit "x-amz-")
    then k ++ (lit ":" ++ (join_values values ++ (lit "\n" ++ rest)))
    else rest

-- `buildStringToSignV2`
unfoldable pub build_string_to_sign_v2 : Request → Bytes
unfolding amz_headers is_empty
build_string_to_sign_v2 r =
    r.method
    ++ (lit "\n"
        ++ (header (lit "content-md5") r
            ++ (lit "\n"
                ++ (header (lit "content-type") r
                    ++ (lit "\n"
                        ++ (header (lit "date") r
                            ++ (lit "\n"
                                ++ (amz_headers r.headers
                                    ++ (r.path
                                        ++ (if is_empty r.raw_query
                                            then []
                                            else lit "?" ++ r.raw_query))))))))))

unfoldable pub v2_signature : (Bytes → Bytes → Bytes) → Credentials → Request → Bytes
v2_signature hmac_hex c r = hmac_hex c.credential (build_string_to_sign_v2 r)

v2_parts : (Bytes → Bytes → Bytes) → Credentials → Request → Option (Bytes × Bytes) → Verdict
v2_parts hmac_hex c r none = err (lit "invalid authorization header format")
v2_parts hmac_hex c r (some (access_key, signature)) =
    if not (beq access_key c.identity)
    then err (lit "invalid access key")
    else if not (beq signature (v2_signature hmac_hex c r))
    then err (lit "signature mismatch")
    else ok tt

-- `AWSV2Provider.Authenticate`
unfoldable pub authenticate_v2 : (Bytes → Bytes → Bytes) → Credentials → Request → Verdict
unfolding v2_parts is_empty
authenticate_v2 hmac_hex c r =
    let authorization = header (lit "authorization") r in
    if is_empty authorization
    then err (lit "missing authorization header")
    else if not (has_prefix authorization (lit "AWS "))
    then err (lit "invalid authorization header format")
    else v2_parts hmac_hex c r (cut (drop 4 authorization) (lit ":"))

add_component : Option (Bytes × Bytes) → Dict Bytes → Dict Bytes
add_component none m = m
add_component (some (k, v)) m = insert k v m

-- the components of a version 4 header; of two with one name the last counts
unfoldable pub auth_components : List Bytes → Dict Bytes → Dict Bytes
unfolding add_component
auth_components [] m = m
auth_components (part ∷ parts) m = auth_components parts (add_component (cut part (lit "=")) m)

v4_credential : Credentials → List Bytes → Verdict
v4_credential c [] = err (lit "invalid credential format")
v4_credential c (access_key ∷ parts) =
    if ltb (length (access_key ∷ parts)) 5
    then err (lit "invalid credential format")
    else if not (beq access_key c.identity)
    then err (lit "invalid access key")
    else ok tt

-- `AWSV4Provider.Authenticate`, which does not look at the signature
unfoldable pub authenticate_v4 : Credentials → Request → Verdict
unfolding v4_credential is_empty first_of
authenticate_v4 c r =
    let authorization = header (lit "authorization") r in
    if is_empty authorization
    then err (lit "missing authorization header")
    else if not (has_prefix authorization (lit "AWS4-HMAC-SHA256 "))
    then err (lit "invalid authorization header format")
    else elim (lookup (lit "Credential")
        (auth_components (split (drop 17 authorization) (lit ", ")) [])) [
          | none ↦ err (lit "missing credential in authorization header")
          | some credential ↦
              if is_empty credential
              then err (lit "missing credential in authorization header")
              else v4_credential c (split credential (lit "/"))
        ]

-- `Authenticate` of a provider that `NewProvider` makes
unfoldable pub authenticate : (Bytes → Bytes → Bytes) → Provider → Request → Verdict
authenticate hmac_hex none_provider r = ok tt
authenticate hmac_hex (basic_provider c) r = authenticate_basic c r.basic_auth
authenticate hmac_hex (aws_v2_provider c) r = authenticate_v2 hmac_hex c r
authenticate hmac_hex (aws_v4_provider c) r = authenticate_v4 c r
