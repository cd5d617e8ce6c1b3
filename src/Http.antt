-- ===== src/Http.antt =====
-- modules/utility/src/http.cpp, and the request middlewares of modules/gitea/src/admin_service_client.cpp
-- and modules/gitea/src/runner_service_client.cpp.
pub mod Joining
pub mod Sending
mod Examples
use gar_virt.Prelude.{
  ltb, leb, ◌==◌, if◌then◌else◌, Bytes, codes, drop, ok, err, Result, ℕ, Bool, true, false, ◌&&◌,
  Option, none, some, List, [], ◌∷◌, ◌++◌,
}
use gar_virt.Text.{less, same, greater, string_compare_ci}

pub data HttpMethod : Type 0 where
  get post del : HttpMethod

-- The headers are a map: a list in the order of the names, each of them once.
pub record HttpRequest : Type 0 where
  pub method : HttpMethod
  pub path : Bytes
  pub payload : Bytes
  pub headers : List (Bytes × Bytes)

pub record HttpResponse : Type 0 where
  pub status : ℕ
  pub body : Bytes

pub data HttpError : Type 0 where
  transfer_failed : Bytes → HttpError
  status_failed : Bytes → ℕ → HttpError
  status_above_max : HttpError

-- '/' is 47.
abbrev pub ends_with_slash : Bytes → Bool
ends_with_slash [] = false
ends_with_slash (c ∷ []) = c == 47
ends_with_slash (c ∷ d ∷ s) = ends_with_slash (d ∷ s)

abbrev pub starts_with_slash : Bytes → Bool
starts_with_slash [] = false
starts_with_slash (c ∷ s) = c == 47

unfoldable pub http_path_join : Bytes → Bytes → Bytes
http_path_join first second =
    let first_delim = ends_with_slash first in
    let second_delim = starts_with_slash second in
    if first_delim && second_delim
    then first ++ drop 1 second
    else if (if first_delim then false else true) && (if second_delim then false else true)
    then first ++ (47 ∷ second)
    else first ++ second

-- `std::map::emplace`: a name that is there keeps its value.
abbrev pub emplace : Bytes → Bytes → List (Bytes × Bytes) → List (Bytes × Bytes)
emplace name value [] = (name, value) ∷ []
emplace name value ((other, old) ∷ headers) = elim (string_compare_ci (λ c. c) name other) [
  | less ↦ (name, value) ∷ (other, old) ∷ headers
  | same ↦ (other, old) ∷ headers
  | greater ↦ (other, old) ∷ emplace name value headers
]

abbrev pub HttpRequestMiddleware : Type 0
HttpRequestMiddleware = HttpRequest → HttpRequest × Bool

abbrev pub add_header : Bytes → Bytes → HttpRequest → HttpRequest
add_header name value req = record req { headers = emplace name value req.headers }

abbrev pub add_content_type : HttpMethod → Bytes → HttpRequest → HttpRequest
add_content_type get type req = req
add_content_type post type req = add_header (codes "Content-Type") type req
add_content_type del type req = req

-- A header for a value that is not empty.
abbrev pub add_unless_empty : Bytes → Bytes → Bytes → HttpRequest → HttpRequest
add_unless_empty name prefix [] req = req
add_unless_empty name prefix (c ∷ value) req = add_header name (prefix ++ (c ∷ value)) req

abbrev pub admin_middleware : Bytes → HttpRequestMiddleware
admin_middleware token req =
    let typed = add_content_type req.method (codes "application/json") req in
    let accepting = add_header (codes "Accept") (codes "application/json") typed in
    (add_unless_empty (codes "Authorization") (codes "token ") token accepting, true)

abbrev pub runner_middleware : Bytes → Bytes → HttpRequestMiddleware
runner_middleware uuid token req =
    let typed = add_content_type req.method (codes "application/proto") req in
    let accepting = add_header (codes "Accept") (codes "application/proto") typed in
    let named = add_unless_empty (codes "X-Runner-UUID") [] uuid accepting in
    (add_unless_empty (codes "X-Runner-Token") [] token named, true)

-- The middlewares run until one returns false.
unfoldable pub run_middlewares : List HttpRequestMiddleware → HttpRequest → HttpRequest
run_middlewares [] req = req
run_middlewares (middleware ∷ rest) req =
    let (next, more) = middleware req in if more then run_middlewares rest next else next

abbrev pub is_del : HttpMethod → Bool
is_del get = false
is_del post = false
is_del del = true

-- What is done with the status and the body of a transfer; a status above the largest `int` throws.
unfoldable pub check_status :
    Bytes → HttpMethod → Option (ℕ × Bytes) → Result HttpError HttpResponse
check_status url method none = err (transfer_failed url)
check_status url method (some (status_code, body)) =
    let is_ok_already_deleted = status_code == 404 && is_del method in
    if leb 400 status_code && (if is_ok_already_deleted then false else true)
    then err (status_failed url status_code)
    else if ltb 2147483647 status_code
    then err status_above_max
    else ok record { status = status_code; body = body }

-- `perform` is the transfer by cURL: nothing if it fails, else the status and the body.
unfoldable pub send :
    (Bytes → HttpRequest → Option (ℕ × Bytes))
    → Bytes
    → List HttpRequestMiddleware
    → HttpRequest
    → Result HttpError HttpResponse
unfolding run_middlewares http_path_join check_status
send perform base_url middlewares req =
    let prepared = run_middlewares middlewares req in
    let url = http_path_join base_url prepared.path in
    check_status url prepared.method (perform url prepared)
