-- ===== src/Auth/AuthManager/Relay.antt =====
-- Where the headers of an outbound call come from.
use okf_mcp_rs.Prelude.{
  ◌⊎◌, ◌≡◌, refl, inl, inr, Text, ascii, text_eq, Bool, true, false, Option, none, some, [], ◌++◌,
  is_empty, if◌then◌else◌, ok, err,
}
use okf_mcp_rs.Prelude.Assoc.{Assoc, lookup, insert, lookup-insert}
use okf_mcp_rs.Auth.AuthManager.{
  Stored, Credentials, stdio, http, no_request_credentials, AuthManager, RequestCredentials,
  into_credentials_map, authenticate, validate_credentials, normalize_credentials, credentials,
  credentials_from_env, decorate, apply_auth_headers, valid_cache,
}

decorate-into_credentials_map :
    (c : RequestCredentials) (headers : Assoc Text)
    → decorate (into_credentials_map c) headers ≡ insert c.header_name c.value headers
unfolding decorate into_credentials_map lookup insert text_eq
decorate-into_credentials_map c headers = refl

-- Over HTTP the headers of a call do not depend on the cached, stored or environment's credentials,
-- and these stay as they are: without credentials of the request the call fails, with them the
-- request's header is added and every other header kept.
pub http_headers :
    (headers : Assoc Text) (request : Option RequestCredentials) (s : AuthManager)
    → ((request ≡ none)
        × (apply_auth_headers headers http request s ≡ (err no_request_credentials, s)))
      ⊎ ((c : RequestCredentials) × (h : Assoc Text) × (request ≡ some c)
          × (apply_auth_headers headers http request s ≡ (ok h, s))
          × ((name : Text)
              → lookup name h
                ≡ (if text_eq c.header_name name then some c.value else lookup name headers)))
unfolding apply_auth_headers
http_headers headers none s = inl (refl, refl)
http_headers headers (some c) s = inr (
  c,
  insert c.header_name c.value headers,
  refl,
  rw (decorate-into_credentials_map c headers) refl,
  λ name. lookup-insert c.header_name name c.value headers,
)

abbrev bearer : Text → Credentials
bearer token =
    insert (ascii "authorization_header") (ascii "Bearer " ++ token)
      (insert (ascii "token") token [])

env_credentials :
    (token : Text) → is_empty token ≡ false → validate_credentials (bearer token) ≡ true
unfolding validate_credentials lookup insert text_eq
env_credentials token h = rw h refl

-- A manager whose environment has a token, or none.
abbrev pub manager : Option Credentials → Option Text → Stored → Bool → AuthManager
manager cached env stored save_works = record {
  cached_credentials = cached;
  env_token = env;
  stored = stored;
  save_works = save_works;
}

module _ (token : Text) (stored : Stored) (save_works : Bool)
    (token_not_empty : is_empty token ≡ false) where
  credentials-env :
      (cached : Option Credentials)
      → valid_cache cached ≡ none
      → credentials (manager cached (some token) stored save_works)
        ≡ (ok (bearer token), manager (some (bearer token)) (some token) stored save_works)
  unfolding credentials credentials_from_env authenticate lookup insert text_eq validate_credentials
  credentials-env cached c = rw (credentials, c) (rw token_not_empty refl)

  credentials-cached :
      (env : Option Text)
      → credentials (manager (some (bearer token)) env stored save_works)
        ≡ (ok (bearer token), manager (some (bearer token)) env stored save_works)
  unfolding credentials normalize_credentials lookup insert text_eq validate_credentials
  credentials-cached env = rw (credentials, token_not_empty) refl

  decorate-bearer :
      (headers : Assoc Text)
      → decorate (bearer token) headers
        ≡ insert (ascii "Authorization") (ascii "Bearer " ++ token) headers
  unfolding decorate lookup insert text_eq
  decorate-bearer headers = refl

  -- Over standard input and output, when no valid credentials are cached and the environment has a
  -- token that is not empty, the call is authorized by that token as a bearer, whatever is stored; the
  -- token is cached, so the same call is authorized by it again after the environment has lost it.
  pub stdio_env_token :
      (headers : Assoc Text) (request : Option RequestCredentials) (cached : Option Credentials)
      → valid_cache cached ≡ none
      → (let (r, s') =
            apply_auth_headers headers stdio request
              (manager cached (some token) stored save_works) in
          (r ≡ ok (insert (ascii "Authorization") (ascii "Bearer " ++ token) headers))
          × ((apply_auth_headers headers stdio request (record s' { env_token = none })).0 ≡ r))
  unfolding apply_auth_headers
  stdio_env_token headers request cached c =
      rw (credentials-env cached c)
        (rw (decorate-bearer headers) refl, rw (credentials-cached none) refl)
