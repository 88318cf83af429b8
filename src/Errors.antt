-- ===== src/Errors.antt =====
-- What is answered to a request whose handler returned an error: `HandleError` of main.go and the
-- tests of errors in common.go.
pub mod Paths
use yggdrasil_authentication.Base.{
  ℕ, Bool, true, false, not, ◌&&◌, Option, none, some, List, [], ◌∷◌, ◌++◌, ◌==◌, nat_eq, text_eq,
  Text, text, get_elem?, if◌then◌else◌,
}
use yggdrasil_authentication.Types.{
  Error, record_not_found, http_error, errors_new, Response, ErrorResponse, json, string,
  error_response,
}
use yggdrasil_authentication.Platform.{Platform}
use yggdrasil_authentication.Util.{contains}

-- The separator is added to the first segment.
abbrev prepend : ℕ → List Text → List Text
prepend c [] = (c ∷ []) ∷ []
prepend c (segment ∷ segments) = (c ∷ segment) ∷ segments

-- `strings.Split(path, "/")`.
unfoldable pub split : Text → List Text
split [] = [] ∷ []
split (c ∷ s) = let rest = split s in if c == b'/' then [] ∷ rest else prepend c rest

-- `len(split) >= 2 && split[1] == "drasl"`.
abbrev pub second_is : Text → List Text → Bool
second_is name segments = elim (get_elem? segments 1) [ none ↦ false | some s ↦ s == name ]

-- `IsYggdrasilPath`.
unfoldable pub is_yggdrasil_path : Text → Bool
is_yggdrasil_path path =
    if path == text "/" then false else not (second_is (text "drasl") (split path))

-- The answers to an error that is not passed on.
abbrev pub internal_error_json : Response
internal_error_json = json 500 (
    error_response
      (record { path = none; error = none; error_message = some (text "internal server error") }))

abbrev pub internal_error_string : Response
internal_error_string = string 500 (text "Internal server error")

-- The HTTP errors that are passed on under the API's paths and under the front end's.
abbrev pub api_codes : List ℕ
api_codes = 404 ∷ 413 ∷ 429 ∷ 405 ∷ []

abbrev pub front_codes : List ℕ
front_codes = 404 ∷ 413 ∷ 429 ∷ []

unfoldable pub handle_api_error : Text → Error → Response
handle_api_error path (http_error code message) =
    if contains api_codes code
    then json code
        (error_response (record { path = some path; error = none; error_message = none }))
    else internal_error_json
handle_api_error path record_not_found = internal_error_json
handle_api_error path (errors_new s) = internal_error_json

unfoldable pub handle_front_error : Error → Response
handle_front_error (http_error code (some message)) =
    if contains front_codes code then string code message else internal_error_string
handle_front_error (http_error code none) = internal_error_string
handle_front_error record_not_found = internal_error_string
handle_front_error (errors_new s) = internal_error_string

-- `HandleError`, for the request's path; what it logs is left out.
unfoldable pub handle_error : Error → Text → Response
handle_error e path =
    if is_yggdrasil_path path then handle_api_error path e else handle_front_error e

-- `IsErrorUniqueFailed`: `errors.As` looks for any error at all, which `err` itself is.
unfoldable pub is_error_unique_failed : Option Error → Bool
is_error_unique_failed none = false
is_error_unique_failed (some e) = true

-- `IsErrorUniqueFailedField`.
unfoldable pub is_error_unique_failed_field : ⦃P : Platform⦄ → Option Error → Text → Bool
is_error_unique_failed_field none field = false
is_error_unique_failed_field ⦃P⦄ (some e) field =
    P.error_string e == text "UNIQUE constraint failed: " ++ field
