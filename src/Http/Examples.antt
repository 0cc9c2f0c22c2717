-- ===== src/Http/Examples.antt =====
-- A request and a response, what they print, and the theorems at them.
use sylar.Common.{◌≡◌, refl, ℕ, Bool, true, false, Option, none, some, [], ◌∷◌}
use sylar.Common.Text.{Text, codes}
use sylar.Common.Outcome.{ok}
use sylar.Servlet.{get_matched_servlet}
use sylar.Http.Server.{sends, closes, HttpServer, handle_client, handle_client-answers}
use sylar.Http.Status.{http_status_to_string}
use sylar.Http.Request.{
  HttpRequest, HttpResponse, new_http_request, new_http_response, set_header, get_header,
  dump_request, dump_response,
}

abbrev request : HttpRequest
request = set_header (codes "Host") (codes "sylar.top") (new_http_request 0x11 false)

abbrev response : HttpResponse
response = new_http_response 0x11 true

prints :
    dump_request (record (new_http_request 0x11 false) { body = codes "hi" })
    ≡ codes "GET / HTTP/1.0\r\nconnection: keep-alive\r\ncontent-length: 2\r\n\r\nhi"
unfolding dump_request new_http_request
prints = refl

prints_status : dump_response response ≡ codes "HTTP/1.0 200 OK\r\nconnection: close\r\n\r\n"
unfolding dump_response new_http_response
prints_status = refl

any_case : get_header (codes "hOST") [] request ≡ codes "sylar.top"
unfolding get_header set_header new_http_request
any_case = refl

not_found : http_status_to_string 404 ≡ codes "Not Found"
unfolding http_status_to_string
not_found = refl

abbrev own_uris : HttpServer
own_uris = record {
  is_keepalive = true;
  dispatch = record { datas = []; globs = []; default_servlet = 0 };
}

-- Its one servlet answers 404.
abbrev not_here : ℕ → Option (HttpRequest → HttpResponse → HttpResponse)
not_here servlet = some (λ req rsp. record rsp { status = 404 })

abbrev no_glob : Text → Text → Bool
no_glob pattern' uri = false

-- The first request asks to close the connection, the second one is answered all the same.
handle_client-answers_example :
    handle_client no_glob not_here own_uris
      (some (new_http_request 16 true) ∷ some (new_http_request 17 false) ∷ none ∷ [])
    ≡ ok (
        sends (record (new_http_response 16 true) { status = 404 })
        ∷ sends (record (new_http_response 17 false) { status = 404 })
        ∷ closes
        ∷ [])
unfolding get_matched_servlet new_http_request
handle_client-answers_example =
    handle_client-answers no_glob not_here own_uris
      (new_http_request 16 true ∷ new_http_request 17 false ∷ []) []
