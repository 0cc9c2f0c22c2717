-- ===== src/Http/Server.antt =====
-- sylar/http/http_server.cpp: handleClient. What recvRequest returns, one call after the other, is a list; a run
-- that needs more of them is `stuck`. `servlets` says what the handle of a servlet makes of a
-- response, `none` for a null pointer.
use sylar.Common.{
  ◌≡◌, refl, ap, ◌∙◌, sym, ℕ, Bool, true, false, not, ◌||◌, Option, none, some, List, [], ◌∷◌, ◌++◌,
  map, take, if◌then◌else◌, Bool-cases, inl, inr,
}
use sylar.Common.Text.{Text}
use sylar.Common.Outcome.{Outcome, ok, stuck, ◌>>=◌}
use sylar.Servlet.{ServletDispatch, get_matched_servlet}
use sylar.Http.Request.{HttpRequest, HttpResponse, new_http_response}

pub record HttpServer : Type 0 where
  pub is_keepalive : Bool
  pub dispatch : ServletDispatch

-- The calls on the session that leave something behind: sendResponse and close.
pub data SessionCall : Type 0 where
  sends : HttpResponse → SessionCall
  closes : SessionCall

-- A servlet's handle, when the pointer is not null.
abbrev pub handle_by :
    Option (HttpRequest → HttpResponse → HttpResponse) → HttpRequest → HttpResponse → HttpResponse
handle_by none req rsp = rsp
handle_by (some servlet) req rsp = servlet req rsp

module _ (fnmatch : Text → Text → Bool)
    (servlets : ℕ → Option (HttpRequest → HttpResponse → HttpResponse)) where
  -- ServletDispatch::handle.
  unfoldable pub handle : ServletDispatch → HttpRequest → HttpResponse → HttpResponse
  unfolding get_matched_servlet
  handle dispatch req rsp =
      handle_by (servlets (get_matched_servlet fnmatch req.path dispatch)) req rsp

  -- The response that a request gets.
  unfoldable pub respond : HttpServer → HttpRequest → HttpResponse
  unfolding handle new_http_response
  respond server req =
      handle server.dispatch req
        (new_http_response req.version (req.close || not server.is_keepalive))

  -- The loop: the responses that are sent.
  unfoldable pub serve_loop : HttpServer → List (Option HttpRequest) → Outcome (List SessionCall)
  unfolding respond
  serve_loop server [] = stuck
  serve_loop server (none ∷ later) = ok []
  serve_loop server (some req ∷ later) =
      let rest = serve_loop server later in
      if server.is_keepalive
      then (rest >>= λ calls. ok (sends (respond server req) ∷ calls))
      else ok (sends (respond server req) ∷ [])

  unfoldable pub handle_client : HttpServer → List (Option HttpRequest) → Outcome (List SessionCall)
  unfolding serve_loop
  handle_client server reqs = serve_loop server reqs >>= λ calls. ok (calls ++ (closes ∷ []))

  -- What a request is to be answered: a new response of its version, which closes if the request or the server wants
  -- it, as the servlet of its path leaves it.
  abbrev pub answer : HttpServer → HttpRequest → HttpResponse
  answer server req =
      handle_by (servlets (get_matched_servlet fnmatch req.path server.dispatch)) req
        (new_http_response req.version (req.close || not server.is_keepalive))

  abbrev pub answers : HttpServer → List HttpRequest → List SessionCall
  answers server [] = []
  answers server (req ∷ reqs) = sends (answer server req) ∷ answers server reqs

  kept_alive :
      (server : HttpServer) (reqs : List HttpRequest) (later : List (Option HttpRequest))
      → server.is_keepalive ≡ true
      → serve_loop server (map some reqs ++ (none ∷ later)) ≡ ok (answers server reqs)
  unfolding serve_loop respond handle
  kept_alive server [] later e = refl
  kept_alive server (req ∷ reqs) later e = rw e (rw (kept_alive server reqs later e) refl)

  answers_once :
      (server : HttpServer) (reqs : List HttpRequest) (later : List (Option HttpRequest))
      → server.is_keepalive ≡ false
      → serve_loop server (map some reqs ++ (none ∷ later)) ≡ ok (answers server (take 1 reqs))
  unfolding serve_loop respond handle
  answers_once server [] later e = refl
  answers_once server (req ∷ reqs) later e = rw e refl

  -- A server that keeps connections alive answers each request that recvRequest returns, in order, until it returns
  -- none, whether or not a request asks to close the connection; any other server answers the first one only. An
  -- answer is a new response of the version of the request, marked to close if the request asks for it or the server
  -- does not keep connections alive, as the servlet of the path leaves it. In both cases handleClient ends, and
  -- closing the session is its last call, made once.
  pub handle_client-answers :
      (server : HttpServer) (reqs : List HttpRequest) (later : List (Option HttpRequest))
      → handle_client server (map some reqs ++ (none ∷ later))
        ≡ ok (answers server (if server.is_keepalive then reqs else take 1 reqs) ++ (closes ∷ []))
  unfolding handle_client
  handle_client-answers server reqs later =
      let answered = λ (b : Bool). answers server (if b then reqs else take 1 reqs) in
      let served : serve_loop server (map some reqs ++ (none ∷ later))
          ≡ ok (answered server.is_keepalive) =
        elim (Bool-cases server.is_keepalive) [
          | inl e ↦ kept_alive server reqs later e ∙ sym (ap (λ b. ok (answered b)) e)
          | inr e ↦ answers_once server reqs later e ∙ sym (ap (λ b. ok (answered b)) e)
        ] in
      ap (λ m. m >>= λ calls. ok (calls ++ (closes ∷ []))) served
