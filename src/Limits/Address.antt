-- ===== src/Limits/Address.antt =====
-- internal/proxy/ratelimit.go: the address by which a client is told apart.
use s3proxy_go.Base.{
  ℕ, suc, if◌then◌else◌, ◌==◌, Bytes, lit, Dict, lookup, is_empty, [], ◌∷◌, Option, none, some,
  take,
}

-- a request, as far as the limiters read it: its headers under their canonical names, with the first
-- value of each, and the address of the connection
pub record Incoming : Type 0 where
  pub headers : Dict Bytes
  pub remote_addr : Bytes

-- `r.Header.Get`
unfoldable pub header_value : Bytes → Incoming → Bytes
unfolding lookup
header_value name r = elim (lookup name r.headers) [ none ↦ [] | some v ↦ v ]

-- the place of the first byte `c`; `none` is -1
unfoldable pub index_of : Bytes → ℕ → Option ℕ
index_of [] c = none
index_of (x ∷ s) c =
    let rest = index_of s c in
    if x == c then some 0 else elim rest [ none ↦ none | some i ↦ some (suc i) ]

-- the place of the last byte `c`
unfoldable pub last_index_of : Bytes → ℕ → Option ℕ
last_index_of [] c = none
last_index_of (x ∷ s) c = elim (last_index_of s c) [
  | some i ↦ some (suc i)
  | none ↦ if x == c then some 0 else none
]

abbrev pub before : Bytes → Option ℕ → Bytes
before s none = s
before s (some i) = take i s

unfoldable pub get_client_ip : Incoming → Bytes
unfolding header_value is_empty index_of last_index_of
get_client_ip r =
    let forwarded = header_value (lit "X-Forwarded-For") r in
    let real = header_value (lit "X-Real-Ip") r in
    if is_empty forwarded
    then if is_empty real then before r.remote_addr (last_index_of r.remote_addr b':') else real
    else before forwarded (index_of forwarded b',')
