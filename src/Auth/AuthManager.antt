-- ===== src/Auth/AuthManager.antt =====
-- src/auth/auth_manager.rs with src/auth/strategies/pat.rs, src/auth/request_credentials.rs and
-- src/http/auth_extractor.rs. The environment and the stored credential, which the operating system
-- keeps, stand beside the manager's cache in one state. `PAT` is the only method there is.
pub mod Relay
mod Tests
use okf_mcp_rs.Prelude.{
  Text, ascii, text_eq, Bool, true, false, not, ◌||◌, Option, none, some, List, [], ◌∷◌, ◌++◌,
  is_empty, if◌then◌else◌, Result, ok, err, ◌>>=◌,
}
use okf_mcp_rs.Prelude.Assoc.{Assoc, lookup, insert}

abbrev pub Credentials : Type 0
Credentials = Assoc Text

pub data Transport : Type 0 where
  stdio http : Transport

pub data AuthError : Type 0 where
  missing_credentials : AuthError
  no_active_credentials : AuthError
  no_request_credentials : AuthError
  no_refresh : AuthError
  unreadable : AuthError
  malformed : AuthError
  not_saved : AuthError

-- What `load_credential` and the parsing of its JSON give.
pub data Stored : Type 0 where
  no_access : Stored
  absent : Stored
  not_json : Stored
  credential : Credentials → Stored

pub record AuthManager : Type 0 where
  pub cached_credentials : Option Credentials
  pub env_token : Option Text
  pub stored : Stored
  pub save_works : Bool

abbrev pub Auth : Type 0 → Type 0
Auth A = AuthManager → Result AuthError A × AuthManager

pub record RequestCredentials : Type 0 where
  pub header_name : Text
  pub value : Text

unfoldable pub into_credentials_map : RequestCredentials → Credentials
into_credentials_map c =
    insert (ascii "request_header_value") c.value
      (insert (ascii "request_header_name") c.header_name [])

pub data ExtractError : Type 0 where
  missing : ExtractError
  unsupported_location : Text → ExtractError

abbrev non_empty : Option Text → Option Text
non_empty none = none
non_empty (some value) = if is_empty value then none else some value

abbrev relayed : Text → Option Text → Result ExtractError RequestCredentials
relayed name none = err missing
relayed name (some value) = ok (record { header_name = name; value = value })

-- `get_header` gives the value of a header of the request, when it is text.
unfoldable pub extract_request_credentials :
    (Text → Option Text) → Text → Text → Result ExtractError RequestCredentials
extract_request_credentials get_header header_location header_name =
    if text_eq header_location (ascii "header")
    then relayed header_name (non_empty (get_header header_name))
    else err (unsupported_location header_location)

-- The strategy: a token is sent as a bearer.
abbrev token_credentials : Option Text → Result AuthError Credentials
token_credentials none = err missing_credentials
token_credentials (some token) = ok (
    insert (ascii "authorization_header") (ascii "Bearer " ++ token)
      (insert (ascii "token") token []))

unfoldable pub authenticate : Credentials → Result AuthError Credentials
authenticate config = token_credentials (lookup (ascii "token") config)

abbrev refresh_token : Credentials → Result AuthError Credentials
refresh_token credentials = err no_refresh

abbrev is_token : Option Text → Bool
is_token none = false
is_token (some token) = not (is_empty token)

unfoldable pub validate_credentials : Credentials → Bool
validate_credentials credentials = is_token (lookup (ascii "token") credentials)

abbrev has : Option Text → Bool
has none = false
has (some value) = true

unfoldable pub normalize_credentials : Credentials → Result AuthError Credentials
normalize_credentials c =
    if has (lookup (ascii "authorization_header") c)
      || (has (lookup (ascii "api_key") c) || has (lookup (ascii "request_header_name") c))
    then ok c
    else elim (lookup (ascii "access_token") c) [
      | some access_token ↦
          ok (insert (ascii "authorization_header") (ascii "Bearer " ++ access_token) c)
      | none ↦ authenticate c
    ]

abbrev save_credential : Credentials → Auth Unit
save_credential c s =
    if s.save_works then (ok tt, record s { stored = credential c }) else (err not_saved, s)

abbrev saved :
    Credentials → Result AuthError Unit × AuthManager → Result AuthError Credentials × AuthManager
saved c (ok u, s) = (ok c, s)
saved c (err e, s) = (err e, s)

-- What is normalized is cached and saved; an error of `save_credential` is passed on.
abbrev keep : Result AuthError Credentials → Auth Credentials
keep (err e) s = (err e, s)
keep (ok c) s = saved c (save_credential c (record s { cached_credentials = some c }))

abbrev keep_exchanged : Result AuthError Credentials → Auth Credentials
keep_exchanged (err e) s = (err no_active_credentials, s)
keep_exchanged (ok exchanged) s = keep (normalize_credentials exchanged) s

abbrev exchange : Credentials → Result AuthError Credentials
exchange parsed =
    if has (lookup (ascii "refresh_token") parsed)
    then refresh_token parsed
    else authenticate parsed

abbrev from_stored : Stored → Auth Credentials
from_stored no_access s = (err unreadable, s)
from_stored absent s = (err no_active_credentials, s)
from_stored not_json s = (err malformed, s)
from_stored (credential parsed) s =
    if validate_credentials parsed
    then keep (normalize_credentials parsed) s
    else keep_exchanged (exchange parsed) s

-- The environment's token, when it authenticates to valid credentials.
abbrev valid_or_none : Result AuthError Credentials → Option Credentials
valid_or_none (err e) = none
valid_or_none (ok c) = if validate_credentials c then some c else none

unfoldable pub credentials_from_env : Option Text → Option Credentials
credentials_from_env none = none
credentials_from_env (some token) = some (insert (ascii "token") token [])

abbrev from_env : Option Credentials → Option Credentials
from_env none = none
from_env (some config) = valid_or_none (authenticate config)

abbrev pub valid_cache : Option Credentials → Option Credentials
valid_cache none = none
valid_cache (some c) = if validate_credentials c then some c else none

unfoldable pub credentials : Auth Credentials
credentials s = elim (valid_cache s.cached_credentials) [
  | some cached ↦ (normalize_credentials cached, s)
  | none ↦ elim (from_env (credentials_from_env s.env_token)) [
    | some c ↦ (ok c, record s { cached_credentials = some c })
    | none ↦ from_stored s.stored s
  ]
]

unfoldable pub login : Credentials → Auth Credentials
login config s = elim (authenticate config) [
  | err e ↦ (err e, s)
  | ok c ↦ saved c (save_credential c (record s { cached_credentials = some c }))
]

unfoldable pub set_credentials : Credentials → AuthManager → AuthManager
set_credentials c s = record s { cached_credentials = some c }

-- The last branch reads `request_header_name` for the name of the header.
abbrev api_key_name : Option Text → Text
api_key_name none = ascii "X-Api-Key"
api_key_name (some name) = name

abbrev plain_headers : Credentials → Assoc Text → Assoc Text
plain_headers c headers = elim (lookup (ascii "authorization_header") c) [
  | some header ↦ insert (ascii "Authorization") header headers
  | none ↦ elim (lookup (ascii "api_key") c) [
    | some api_key ↦ insert (api_key_name (lookup (ascii "request_header_name") c)) api_key headers
    | none ↦ headers
  ]
]

unfoldable pub decorate : Credentials → Assoc Text → Assoc Text
decorate c headers = elim (lookup (ascii "request_header_name") c) [
  | none ↦ plain_headers c headers
  | some name ↦ elim (lookup (ascii "request_header_value") c) [
    | none ↦ plain_headers c headers
    | some value ↦ insert name value headers
  ]
]

abbrev decorated :
    Assoc Text
    → Result AuthError Credentials × AuthManager
    → Result AuthError (Assoc Text) × AuthManager
decorated headers (err e, s) = (err e, s)
decorated headers (ok c, s) = (ok (decorate c headers), s)

abbrev credentials_for : Transport → Option RequestCredentials → Auth Credentials
credentials_for http (some request) s = (ok (into_credentials_map request), s)
credentials_for http none s = (err no_request_credentials, s)
credentials_for stdio request s = credentials s

unfoldable pub apply_auth_headers :
    Assoc Text → Transport → Option RequestCredentials → Auth (Assoc Text)
apply_auth_headers headers transport request s =
    decorated headers (credentials_for transport request s)
