-- ===== src/Http/Parser.antt =====
-- sylar/http/http_parser.cpp: the callbacks that fill a request and a response while the parser of the HTTP
-- grammar runs, and the two classes around them. The generated parsers are interfaces, with what their
-- assertions promise.
pub mod Accepting
pub mod Responses
pub mod Executing
use sylar.Common.{
  ℕ, zero, suc, ◌+◌, ◌-◌, ◌*◌, ◌≤◌, Bool, true, false, not, ◌&&◌, ◌||◌, Option, none, some, List,
  [], ◌∷◌, length, take, leb, ◌==◌, if◌then◌else◌,
}
use sylar.Common.Text.{Text, codes}
use sylar.Common.Memory.{overwrite, slice}
use sylar.Common.Outcome.{Outcome, ok, fault, ◌>>=◌, deref}
use sylar.Http.Methods.{HttpMethod, number, chars_to_http_method}
use sylar.Http.Headers.{find}
use sylar.Http.Request.{
  HttpRequest, HttpResponse, new_http_request, new_http_response, set_header, response_set_header,
}

-- A call of one of the function pointers of `http_parser`: the characters from `at` on and the length, or a
-- field and its value.
pub data RequestEvent : Type 0 where
  request_method : Text → ℕ → RequestEvent
  request_uri : Text → ℕ → RequestEvent
  fragment : Text → ℕ → RequestEvent
  request_path : Text → ℕ → RequestEvent
  query_string : Text → ℕ → RequestEvent
  http_version : Text → ℕ → RequestEvent
  header_done : Text → ℕ → RequestEvent
  http_field : Text → Text → RequestEvent

-- The same for `httpclient_parser`.
pub data ResponseEvent : Type 0 where
  reason_phrase : Text → ℕ → ResponseEvent
  status_code : Text → ℕ → ResponseEvent
  chunk_size : Text → ℕ → ResponseEvent
  response_version : Text → ℕ → ResponseEvent
  response_header_done : Text → ℕ → ResponseEvent
  last_chunk : Text → ℕ → ResponseEvent
  response_field : Text → Text → ResponseEvent

-- http11_parser.h and httpclient_parser.h: `execute` on bytes gives the next state, how many bytes it took (a
-- size_t), and the callbacks that it made.
pub record Grammar (Event : Type 0) : Type 1 where
  pub State : Type 0
  pub init : State
  pub execute : List ℕ → State → State × ℕ × List Event
  pub has_error : State → Bool
  pub is_finished : State → Bool

-- http11_parser.h, with one of the assertions of its execute: "nread longer than length".
pub record RequestGrammar : Type 1 where
  pub grammar : Grammar RequestEvent
  pub taken-le : (bytes : List ℕ) (s : grammar.State) → (grammar.execute bytes s).1 ≤ length bytes

-- `request` is m_data.
pub record HttpRequestParser (S : Type 0) : Type 0 where
  pub parser : S
  pub request : HttpRequest
  pub error : ℕ

unfoldable pub set_error : {S : Type 0} → ℕ → HttpRequestParser S → HttpRequestParser S
set_error v p = record p { error = v }

-- `strncmp(at, name, length) == 0`; both texts are ended by a 0.
unfoldable pub strncmp_eq : (length : ℕ) → Text → Text → Bool
strncmp_eq zero a b = true
strncmp_eq (suc n) [] [] = true
strncmp_eq (suc n) [] (c ∷ cs) = false
strncmp_eq (suc n) (a ∷ xs) [] = a == 0
strncmp_eq (suc n) (a ∷ xs) (c ∷ cs) = (a == c) && strncmp_eq n xs cs

-- The version byte that the text of a version stands for.
unfoldable pub version_of : Text → ℕ → Option ℕ
unfolding strncmp_eq
version_of at length =
    if strncmp_eq length at (codes "HTTP/1.1")
    then some 0x11
    else (if strncmp_eq length at (codes "HTTP/1.0") then some 0x10 else none)

abbrev pub is_invalid : HttpMethod → Bool
is_invalid m = number m == 34

abbrev pub content_length : (Text → Option ℕ) → Option Text → ℕ
content_length lexical_cast none = 0
content_length lexical_cast (some t) = elim (lexical_cast t) [ none ↦ 0 | some n ↦ n ]

module _ {S : Type 0} where
  unfoldable pub on_request_method : Text → ℕ → HttpRequestParser S → HttpRequestParser S
  unfolding chars_to_http_method set_error
  on_request_method at length p =
      let m = chars_to_http_method at in
      if is_invalid m
      then set_error 1000 p
      else record p { request = record p.request { method = m } }

  unfoldable pub on_request_fragment : Text → ℕ → HttpRequestParser S → HttpRequestParser S
  on_request_fragment at length p = record p {
    request = record p.request { fragment = take length at };
  }

  unfoldable pub on_request_path : Text → ℕ → HttpRequestParser S → HttpRequestParser S
  on_request_path at length p = record p { request = record p.request { path = take length at } }

  unfoldable pub on_request_query : Text → ℕ → HttpRequestParser S → HttpRequestParser S
  on_request_query at length p = record p { request = record p.request { query = take length at } }

  unfoldable pub set_version : Option ℕ → HttpRequestParser S → HttpRequestParser S
  unfolding set_error
  set_version none p = set_error 1001 p
  set_version (some v) p = record p { request = record p.request { version = v } }

  unfoldable pub on_request_version : Text → ℕ → HttpRequestParser S → HttpRequestParser S
  unfolding version_of set_version
  on_request_version at length p = set_version (version_of at length) p

  unfoldable pub on_request_http_field : Text → Text → HttpRequestParser S → HttpRequestParser S
  unfolding set_error set_header
  on_request_http_field field value p =
      if length field == 0
      then set_error 1002 p
      else record p { request = set_header field value p.request }

  -- The pointers that the constructor sets.
  unfoldable pub on_request : RequestEvent → HttpRequestParser S → HttpRequestParser S
  unfolding on_request_method on_request_fragment on_request_path on_request_query
      on_request_version on_request_http_field
  on_request (request_method at n) p = on_request_method at n p
  on_request (request_uri at n) p = p
  on_request (fragment at n) p = on_request_fragment at n p
  on_request (request_path at n) p = on_request_path at n p
  on_request (query_string at n) p = on_request_query at n p
  on_request (http_version at n) p = on_request_version at n p
  on_request (header_done at n) p = p
  on_request (http_field field value) p = on_request_http_field field value p

  unfoldable pub on_requests : List RequestEvent → HttpRequestParser S → HttpRequestParser S
  unfolding on_request
  on_requests [] p = p
  on_requests (e ∷ es) p = on_requests es (on_request e p)

  -- HttpRequest's default arguments are version 0x11 and closing.
  unfoldable pub new_request_parser : S → HttpRequestParser S
  unfolding new_http_request
  new_request_parser init = record {
    parser = init;
    request = new_http_request 0x11 true;
    error = 0;
  }

  -- The header `content-length` as boost::lexical_cast reads it; 0 where there is none, or it throws.
  unfoldable pub get_content_length : (Text → Option ℕ) → HttpRequestParser S → ℕ
  unfolding find
  get_content_length lexical_cast p =
      content_length lexical_cast (find (codes "content-length") p.request.headers)

-- memmove(data, data + offset, len - offset) in a buffer.
unfoldable pub move_rest : List ℕ → (offset len : ℕ) → Outcome (List ℕ)
move_rest buffer offset len =
    if leb offset len && leb len (length buffer)
    then ok (overwrite buffer 0 (slice buffer offset (len - offset)))
    else fault

module _ (g : Grammar RequestEvent) where
  -- HttpRequestParser::execute on the first `len` bytes of a buffer.
  unfoldable pub execute :
      List ℕ
      → (len : ℕ) → HttpRequestParser g.State
      → Outcome (HttpRequestParser g.State × List ℕ × ℕ)
  unfolding on_requests move_rest
  execute buffer len p =
      let run = g.execute (take len buffer) p.parser in
      move_rest buffer run.1 len >>= λ rest.
      ok (on_requests run.2 (record p { parser = run.0 }), rest, run.1)

  unfoldable pub has_error : HttpRequestParser g.State → Bool
  has_error p = not (p.error == 0) || g.has_error p.parser

  unfoldable pub is_finished : HttpRequestParser g.State → Bool
  is_finished p = g.is_finished p.parser
