-- ===== src/Http/Request.antt =====
-- HttpRequest and HttpResponse: the accessors of their maps, and how they print.
use sylar.Common.{
  ℕ, ◌/◌, Bool, true, false, Option, none, some, [], ◌∷◌, ◌++◌, length, if◌then◌else◌,
}
use sylar.Common.Text.{Text, codes, decimal}
use sylar.Http.Methods.{HttpMethod, get_method, http_method_to_string}
use sylar.Http.Status.{http_status_to_string}
use sylar.Http.Headers.{MapType, find, assign, erase, key_eq, case_insensitive_less}

pub record HttpRequest : Type 0 where
  pub method : HttpMethod
  pub version : ℕ
  pub close : Bool
  pub path : Text
  pub query : Text
  pub fragment : Text
  pub body : Text
  pub headers : MapType
  pub params : MapType
  pub cookies : MapType

pub record HttpResponse : Type 0 where
  pub status : ℕ
  pub version : ℕ
  pub close : Bool
  pub body : Text
  pub reason : Text
  pub headers : MapType

unfoldable pub new_http_request : ℕ → Bool → HttpRequest
new_http_request version close = record {
  method = get_method;
  version = version;
  close = close;
  path = codes "/";
  query = [];
  fragment = [];
  body = [];
  headers = [];
  params = [];
  cookies = [];
}

unfoldable pub new_http_response : ℕ → Bool → HttpResponse
new_http_response version close = record {
  status = 200;
  version = version;
  close = close;
  body = [];
  reason = [];
  headers = [];
}

abbrev pub value_or : Option Text → Text → Text
value_or none def = def
value_or (some v) def = v

unfoldable pub get_header : Text → Text → HttpRequest → Text
unfolding find
get_header key def r = value_or (find key r.headers) def

unfoldable pub set_header : Text → Text → HttpRequest → HttpRequest
unfolding assign
set_header key value r = record r { headers = assign key value r.headers }

unfoldable pub del_header : Text → HttpRequest → HttpRequest
unfolding erase
del_header key r = record r { headers = erase key r.headers }

-- hasHeader, with what it stores through a pointer that is not null.
unfoldable pub has_header : Text → HttpRequest → Option Text
unfolding find
has_header key r = find key r.headers

unfoldable pub get_param : Text → Text → HttpRequest → Text
unfolding find
get_param key def r = value_or (find key r.params) def

unfoldable pub set_param : Text → Text → HttpRequest → HttpRequest
unfolding assign
set_param key value r = record r { params = assign key value r.params }

unfoldable pub del_param : Text → HttpRequest → HttpRequest
unfolding erase
del_param key r = record r { params = erase key r.params }

-- hasParam, with what it stores through a pointer that is not null.
unfoldable pub has_param : Text → HttpRequest → Option Text
unfolding find
has_param key r = find key r.params

unfoldable pub get_cookie : Text → Text → HttpRequest → Text
unfolding find
get_cookie key def r = value_or (find key r.cookies) def

unfoldable pub set_cookie : Text → Text → HttpRequest → HttpRequest
unfolding assign
set_cookie key value r = record r { cookies = assign key value r.cookies }

unfoldable pub del_cookie : Text → HttpRequest → HttpRequest
unfolding erase
del_cookie key r = record r { cookies = erase key r.cookies }

-- hasCookie, with what it stores through a pointer that is not null.
unfoldable pub has_cookie : Text → HttpRequest → Option Text
unfolding find
has_cookie key r = find key r.cookies

unfoldable pub response_get_header : Text → Text → HttpResponse → Text
unfolding find
response_get_header key def r = value_or (find key r.headers) def

unfoldable pub response_set_header : Text → Text → HttpResponse → HttpResponse
unfolding assign
response_set_header key value r = record r { headers = assign key value r.headers }

unfoldable pub response_del_header : Text → HttpResponse → HttpResponse
unfolding erase
response_del_header key r = record r { headers = erase key r.headers }

abbrev pub is_empty : Text → Bool
is_empty [] = true
is_empty (c ∷ cs) = false

abbrev crlf : Text
crlf = 13 ∷ 10 ∷ []

-- `"HTTP/"` and the version: its upper four bits, a dot, and the version shifted by 7.
abbrev pub version_text : ℕ → Text
version_text version =
    codes "HTTP/" ++ (decimal 3 (version / 16) ++ (codes "." ++ decimal 3 (version / 128)))

abbrev connection_text : Bool → Text
connection_text close =
    codes "connection: " ++ ((if close then codes "close" else codes "keep-alive") ++ crlf)

-- The headers but `connection`, each behind its separator.
unfoldable pub headers_text : Text → MapType → Text
unfolding case_insensitive_less
headers_text separator [] = []
headers_text separator ((k, v) ∷ rest) =
    let later = headers_text separator rest in
    if key_eq k (codes "connection") then later else k ++ (separator ++ (v ++ (crlf ++ later)))

-- A size_t has at most 20 digits.
abbrev body_text : Text → Text
body_text body =
    if is_empty body
    then crlf
    else codes "content-length: " ++ (decimal 20 (length body) ++ (crlf ++ (crlf ++ body)))

unfoldable pub dump_request : HttpRequest → Text
unfolding http_method_to_string headers_text
dump_request r =
    http_method_to_string r.method
    ++ (codes " "
        ++ (r.path
            ++ ((if is_empty r.query then [] else codes "?")
                ++ (r.query
                    ++ ((if is_empty r.fragment then [] else codes "#")
                        ++ (codes " "
                            ++ (version_text r.version
                                ++ (crlf
                                    ++ (connection_text r.close
                                        ++ (headers_text (codes ":") r.headers
                                            ++ body_text r.body))))))))))

unfoldable pub dump_response : HttpResponse → Text
unfolding http_status_to_string headers_text
dump_response r =
    version_text r.version
    ++ (codes " "
        ++ (decimal 10 r.status
            ++ (codes " "
                ++ ((if is_empty r.reason then http_status_to_string r.status else r.reason)
                    ++ (crlf
                        ++ (headers_text (codes ": ") r.headers
                            ++ (connection_text r.close ++ body_text r.body)))))))
