-- ===== src/Http/Sending.antt =====
-- Sending of requests.
use gar_virt.Prelude.{
  Bytes, ok, ℕ, ◌≤◌, ◌<◌, ◌≡◌, refl, ◌↔◌, ◌⊎◌, inl, inr, Option, none, some, List, arith,
}
use gar_virt.Http.{
  get, post, del, HttpMethod, HttpRequest, HttpResponse, http_path_join, HttpRequestMiddleware,
  run_middlewares, check_status, send,
}

of_status :
    (url : Bytes) (method : HttpMethod) (code : ℕ) (body : Bytes)
    → (code < 400) ⊎ ((code ≡ 404) × (method ≡ del))
    → code ≤ 2147483647
    → check_status url method (some (code, body)) ≡ ok record { status = code; body = body }
unfolding check_status
of_status url get code body (inl below) small = ground arith
of_status url post code body (inl below) small = ground arith
of_status url del code body (inl below) small = ground arith
of_status url method code body (inr (e, gone)) small = rw (e, gone) refl

to_status :
    (url : Bytes) (method : HttpMethod) (code : ℕ) (body : Bytes) (response : HttpResponse)
    → check_status url method (some (code, body)) ≡ ok response
    → ((code < 400) ⊎ ((code ≡ 404) × (method ≡ del)))
      × (code ≤ 2147483647)
      × (response ≡ record { status = code; body = body })
unfolding check_status
to_status url get code body response h = ground arith
to_status url post code body response h = ground arith
to_status url del code body response h = ground arith

check_status_iff :
    (url : Bytes) (method : HttpMethod) (answer : Option (ℕ × Bytes)) (response : HttpResponse)
    → (check_status url method answer ≡ ok response) ↔ (
        (answer ≡ some (response.status, response.body))
        × ((response.status < 400) ⊎ ((response.status ≡ 404) × (method ≡ del)))
        × (response.status ≤ 2147483647))
check_status_iff url method none response = ((λ h. unfold check_status in cc), (λ (e, _, _). cc))
check_status_iff url method (some (code, body)) response = (
  (λ h.
      let (fine, small, same_response) = to_status url method code body response h in
      rw same_response (refl, fine, small)),
  (λ (e, fine, small).
      let same_code : code ≡ response.status = cc in
      let same_body : body ≡ response.body = cc in
      rw (same_code, same_body) (of_status url method response.status response.body fine small)),
)

-- `send` gives a response exactly if the transfer of the request, as the middlewares leave it, to the
-- joined address gives its status and its body, the status is no error or it is the answer 404 to a
-- deletion, and it fits an `int`.
pub send_iff :
    (perform : Bytes → HttpRequest → Option (ℕ × Bytes)) (base_url : Bytes)
    (middlewares : List HttpRequestMiddleware) (req : HttpRequest) (response : HttpResponse)
    → (send perform base_url middlewares req ≡ ok response) ↔ (
        (perform
            (http_path_join base_url (run_middlewares middlewares req).path)
            (run_middlewares middlewares req)
          ≡ some (response.status, response.body))
        × ((response.status < 400)
            ⊎ ((response.status ≡ 404) × ((run_middlewares middlewares req).method ≡ del)))
        × (response.status ≤ 2147483647))
unfolding send
send_iff perform base_url middlewares req response =
    check_status_iff (http_path_join base_url (run_middlewares middlewares req).path)
      (run_middlewares middlewares req).method
      (perform (http_path_join base_url (run_middlewares middlewares req).path)
        (run_middlewares middlewares req))
      response
