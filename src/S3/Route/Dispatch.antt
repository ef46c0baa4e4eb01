-- ===== src/S3/Route/Dispatch.antt =====
-- Which operation pkg/s3/handler.go chooses for a request.
use s3proxy_go.Base.{
  true, false, none, Bytes, is_empty, Dict, lookup, lit, ◌≡◌, ◌≢◌, ◌↔◌, ◌⊎◌, arith,
}
use s3proxy_go.S3.Http.{value_of}
use s3proxy_go.S3.Route.{Operation, complete_upload, initiate_upload, Method, operation_of}

module _ (m : Method) (query : Dict Bytes) where
  -- An upload is completed, under the ID u, exactly when a POST request names the upload ID u and u is not empty.
  pub operation_of_complete :
      (u : Bytes)
      → (operation_of m query ≡ complete_upload u) ↔ (
          (m ≡ Method.post)
          × (value_of (lit "uploadId") query ≡ u)
          × (is_empty (value_of (lit "uploadId") query) ≡ false))
  unfolding operation_of
  operation_of_complete u = (λ e. ground arith, λ e. ground arith)

  -- A request starts an upload exactly when it is a POST request with the parameter uploads and no upload ID.
  pub operation_of_initiate : (operation_of m query ≡ initiate_upload) ↔ (
      (m ≡ Method.post)
      × (is_empty (value_of (lit "uploadId") query) ≡ true)
      × (lookup (lit "uploads") query ≢ none))
  unfolding operation_of
  operation_of_initiate = (λ e. ground arith, λ e. ground arith)

  -- A request stores an object exactly when it is a PUT request with no parameter acl that has no upload ID or no part number: one with an upload ID and no part number stores its body as the whole object.
  pub operation_of_store : (operation_of m query ≡ Operation.put) ↔ (
      (m ≡ Method.put)
      × (is_empty (value_of (lit "acl") query) ≡ true)
      × ((is_empty (value_of (lit "uploadId") query) ≡ true)
          ⊎ (is_empty (value_of (lit "partNumber") query) ≡ true)))
  unfolding operation_of
  operation_of_store = (λ e. ground arith, λ e. ground arith)
