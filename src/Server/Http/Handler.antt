-- ===== src/Server/Http/Handler.antt =====
-- NewHTTPServer and newCorsHandler of pkg/server/http.go: what they configure in net/http and rs/cors.
use airfk.Shared.{ℕ, List, [], ◌∷◌, Bytes, codes, length, ◌==◌, if◌then◌else◌}

pub record CorsOptions : Type 0 where
  pub allowed_origins : List Bytes
  pub allowed_methods : List Bytes
  pub max_age : ℕ
  pub allowed_headers : List Bytes

-- The server itself, or behind a handler of package cors.
pub data Handler (S : Type 0) : Type 0 where
  bare : S → Handler S
  with_cors : CorsOptions → S → Handler S

-- The timeouts are in seconds.
pub record HttpServer (S : Type 0) : Type 0 where
  pub handler : Handler S
  pub read_timeout : ℕ
  pub write_timeout : ℕ
  pub idle_timeout : ℕ

module _ {S : Type 0} where
  unfoldable pub new_cors_handler : S → List Bytes → Handler S
  new_cors_handler srv origins =
      if length origins == 0
      then bare srv
      else with_cors
          (record {
            allowed_origins = origins;
            allowed_methods = codes "POST" ∷ codes "GET" ∷ [];
            max_age = 600;
            allowed_headers = codes "*" ∷ [];
          })
          srv

  unfoldable pub new_http_server : List Bytes → S → HttpServer S
  unfolding new_cors_handler
  new_http_server cors srv = record {
    handler = new_cors_handler srv cors;
    read_timeout = 5;
    write_timeout = 10;
    idle_timeout = 120;
  }
