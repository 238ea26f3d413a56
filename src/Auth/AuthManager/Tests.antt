-- ===== src/Auth/AuthManager/Tests.antt =====
-- Calls with credentials of several kinds.
use okf_mcp_rs.Prelude.{
  ◌≡◌, refl, ◌⊎◌, Text, ascii, text_eq, some, none, [], ◌∷◌, true, ok, err, if◌then◌else◌,
}
use okf_mcp_rs.Prelude.Assoc.{Assoc, lookup, insert}
use okf_mcp_rs.Auth.AuthManager.{
  credentials_from_env, stdio, http, AuthManager, RequestCredentials, absent, credential,
  no_request_credentials, missing, extract_request_credentials, apply_auth_headers, credentials,
  validate_credentials, authenticate, normalize_credentials, decorate,
}
use okf_mcp_rs.Auth.AuthManager.Relay.{manager, http_headers, stdio_env_token}

abbrev headers : Assoc Text
headers = (ascii "Accept", ascii "json") ∷ []

abbrev request : RequestCredentials
request = record { header_name = ascii "Authorization"; value = ascii "Bearer x" }

abbrev operator : AuthManager
operator = manager none (some (ascii "secret")) absent true

empty_header :
    extract_request_credentials (λ name. some []) (ascii "header") (ascii "Authorization")
    ≡ err missing
unfolding extract_request_credentials text_eq
empty_header = refl

stored_token :
    (apply_auth_headers headers stdio none
      (manager none none (credential ((ascii "token", ascii "t") ∷ [])) true)).0
    ≡ ok ((ascii "Accept", ascii "json") ∷ (ascii "Authorization", ascii "Bearer t") ∷ [])
unfolding apply_auth_headers credentials_from_env credentials validate_credentials
    normalize_credentials authenticate decorate lookup insert text_eq
stored_token = refl

http_headers_example :
    ((some request ≡ none)
      × (apply_auth_headers headers http (some request) operator
          ≡ (err no_request_credentials, operator)))
    ⊎ ((c : RequestCredentials) × (h : Assoc Text) × (some request ≡ some c)
        × (apply_auth_headers headers http (some request) operator ≡ (ok h, operator))
        × ((name : Text)
            → lookup name h
              ≡ (if text_eq c.header_name name then some c.value else lookup name headers)))
http_headers_example = http_headers headers (some request) operator

stdio_env_token_example :
    (let (r, s') =
        apply_auth_headers headers stdio none (manager none (some (ascii "secret")) absent true) in
      (r ≡ ok (insert (ascii "Authorization") (ascii "Bearer secret") headers))
      × ((apply_auth_headers headers stdio none (record s' { env_token = none })).0 ≡ r))
stdio_env_token_example = stdio_env_token (ascii "secret") absent true refl headers none none refl
