-- ===== src/Http/Examples.antt =====
-- Requests.
use gar_virt.Prelude.{Bytes, codes, ok, ℕ, ◌≤◌, ◌<◌, ◌≡◌, refl, ◌↔◌, ◌⊎◌, Option, some, [], ◌∷◌}
use gar_virt.Text.{string_compare_ci}
use gar_virt.Http.{
  del, HttpRequest, http_path_join, admin_middleware, run_middlewares, check_status, send,
}
use gar_virt.Http.Sending.{send_iff}

abbrev request : HttpRequest
request = record { method = del; path = codes "/runners/5"; payload = []; headers = [] }

abbrev not_found : ℕ
not_found = 404

-- A server that has no runner.
abbrev no_runner : Bytes → HttpRequest → Option (ℕ × Bytes)
no_runner url req = some (404, [])

send_iff_example :
    (send no_runner (codes "forge") (admin_middleware (codes "t") ∷ []) request
      ≡ ok record { status = 404; body = [] })
    ↔ ((no_runner
            (http_path_join
              (codes "forge")
              (run_middlewares (admin_middleware (codes "t") ∷ []) request).path)
            (run_middlewares (admin_middleware (codes "t") ∷ []) request)
          ≡ some (404, []))
        × ((not_found < 400)
            ⊎ ((not_found ≡ 404)
                × ((run_middlewares (admin_middleware (codes "t") ∷ []) request).method ≡ del)))
        × (not_found ≤ 2147483647))
send_iff_example =
    send_iff no_runner (codes "forge") (admin_middleware (codes "t") ∷ []) request
      record { status = 404; body = [] }

already_deleted :
    send no_runner (codes "forge") (admin_middleware (codes "t") ∷ []) request
    ≡ ok record { status = 404; body = [] }
unfolding send check_status run_middlewares string_compare_ci
already_deleted = refl
