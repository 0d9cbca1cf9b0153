-- ===== src/Server/Http.antt =====
-- ServeHTTP and validateRequest of pkg/server/http.go.
pub mod Handler
use airfk.Shared.{
  ℕ, ◌*◌, ◌≡◌, ◌↔◌, Bool, true, false, ◌&&◌, ◌||◌, not, Option, none, some, ◌∷◌, ◌++◌, Bytes, codes,
  arith, ltb, ◌==◌, if◌then◌else◌, length, take, text_eq,
}
use airfk.Shared.Int.{ℤ, pos, negsuc}
use airfk.GoStd.Atoi.{decimal_int}

abbrev pub content_type : Bytes
content_type = codes "application/json"

abbrev pub max_request_content_length : ℕ
max_request_content_length = 1024 * 128

-- What the handler reads of a request; `media_type` is what mime.ParseMediaType makes of the
-- content-type header, or nothing when it fails.
pub record Request : Type 0 where
  pub method : Bytes
  pub content_length : ℤ
  pub raw_query : Bytes
  pub media_type : Option Bytes
  pub body : Bytes

-- Nothing is written; an error with its status; or the server reads requests from a body.
pub data Answer : Type 0 where
  empty : Answer
  http_error : ℕ → Bytes → Answer
  served : Bytes → Answer

unfoldable pub exceeds : ℤ → ℕ → Bool
exceeds (pos n) m = ltb m n
exceeds (negsuc n) m = false

unfoldable pub is_zero : ℤ → Bool
is_zero (pos n) = n == 0
is_zero (negsuc n) = false

unfoldable pub is_json : Option Bytes → Bool
is_json none = false
is_json (some mt) = text_eq mt content_type

-- The status and the message of an invalid request.
unfoldable pub validate_request : Request → Option (ℕ × Bytes)
validate_request r =
    if text_eq r.method (codes "PUT") || text_eq r.method (codes "DELETE")
    then some (405, codes "method not allowed")
    else if exceeds r.content_length max_request_content_length
    then some (
      413,
      codes "content length too large ("
          ++ (decimal_int r.content_length
              ++ (b'>' ∷ (decimal_int (pos max_request_content_length) ++ codes ")"))),
    )
    else if not (text_eq r.method (codes "OPTIONS")) && not (is_json r.media_type)
    then some (415, codes "invalid content type, only " ++ (content_type ++ codes " is supported"))
    else none

unfoldable pub serve_http : Request → Answer
serve_http r =
    if text_eq r.method (codes "GET") && is_zero r.content_length && length r.raw_query == 0
    then empty
    else elim (validate_request r) [
      | some (status, message) ↦ http_error status message
      | none ↦ served (take max_request_content_length r.body)
    ]

abbrev Accepted : Request → Type 0
Accepted r =
    (text_eq r.method (codes "PUT") ≡ false)
    × (text_eq r.method (codes "DELETE") ≡ false)
    × (exceeds r.content_length max_request_content_length ≡ false)
    × ((text_eq r.method (codes "OPTIONS") || is_json r.media_type) ≡ true)
    × ((text_eq r.method (codes "GET") && is_zero r.content_length && length r.raw_query == 0)
        ≡ false)

-- A request reaches the server, which then reads at most 128 KB of its body, exactly when its method
-- is neither PUT nor DELETE, its length is not known to be larger, its content type is JSON or its
-- method OPTIONS, and it is not an empty GET without a query.
serve_http-served :
    (r : Request) → (serve_http r ≡ served (take max_request_content_length r.body)) ↔ Accepted r
unfolding serve_http validate_request
serve_http-served r = (λ h. ground arith, λ h. ground arith)
