-- ===== src/Http/Parser/Responses.antt =====
-- HttpResponseParser of sylar/http/http_parser.cpp and its callbacks.
use sylar.Common.{
  ℕ, ◌+◌, ◌-◌, ◌*◌, Bool, true, not, ◌&&◌, ◌||◌, Option, none, some, List, [], ◌∷◌, length, take,
  leb, ◌==◌, if◌then◌else◌,
}
use sylar.Common.Text.{Text, codes}
use sylar.Common.Outcome.{Outcome, ok, ◌>>=◌, deref}
use sylar.Http.Headers.{find}
use sylar.Http.Request.{HttpResponse, new_http_response, response_set_header}
use sylar.Http.Parser.{
  ResponseEvent, reason_phrase, status_code, chunk_size, response_version, response_header_done,
  last_chunk, response_field, Grammar, version_of, content_length, move_rest,
}

-- `response` is m_data; m_error has no value until something is written to it.
pub record HttpResponseParser (S : Type 0) : Type 0 where
  pub parser : S
  pub response : HttpResponse
  pub error : Option ℕ

-- The digits in front, as atoi reads a text that begins with one.
unfoldable pub atoi : (acc : ℕ) → Text → ℕ
atoi acc [] = acc
atoi acc (c ∷ cs) = if leb 48 c && leb c 57 then atoi (acc * 10 + (c - 48)) cs else acc

module _ {S : Type 0} where
  unfoldable pub on_response_reason : Text → ℕ → HttpResponseParser S → HttpResponseParser S
  on_response_reason at length p = record p {
    response = record p.response { reason = take length at };
  }

  unfoldable pub on_response_status : Text → ℕ → HttpResponseParser S → HttpResponseParser S
  unfolding atoi
  on_response_status at length p = record p { response = record p.response { status = atoi 0 at } }

  unfoldable pub set_response_version : Option ℕ → HttpResponseParser S → HttpResponseParser S
  set_response_version none p = record p { error = some 1001 }
  set_response_version (some v) p = record p { response = record p.response { version = v } }

  unfoldable pub on_response_version : Text → ℕ → HttpResponseParser S → HttpResponseParser S
  unfolding version_of set_response_version
  on_response_version at length p = set_response_version (version_of at length) p

  unfoldable pub on_response_http_field : Text → Text → HttpResponseParser S → HttpResponseParser S
  unfolding response_set_header
  on_response_http_field field value p =
      if length field == 0
      then record p { error = some 1002 }
      else record p { response = response_set_header field value p.response }

  -- The pointers that the constructor sets.
  unfoldable pub on_response : ResponseEvent → HttpResponseParser S → HttpResponseParser S
  unfolding on_response_reason on_response_status on_response_version on_response_http_field
  on_response (reason_phrase at n) p = on_response_reason at n p
  on_response (status_code at n) p = on_response_status at n p
  on_response (chunk_size at n) p = p
  on_response (response_version at n) p = on_response_version at n p
  on_response (response_header_done at n) p = p
  on_response (last_chunk at n) p = p
  on_response (response_field field value) p = on_response_http_field field value p

  unfoldable pub on_responses : List ResponseEvent → HttpResponseParser S → HttpResponseParser S
  unfolding on_response
  on_responses [] p = p
  on_responses (e ∷ es) p = on_responses es (on_response e p)

  unfoldable pub new_response_parser : S → HttpResponseParser S
  unfolding new_http_response
  new_response_parser init = record {
    parser = init;
    response = new_http_response 0x11 true;
    error = none;
  }

  unfoldable pub response_content_length : (Text → Option ℕ) → HttpResponseParser S → ℕ
  unfolding find
  response_content_length lexical_cast p =
      content_length lexical_cast (find (codes "content-length") p.response.headers)

module _ (g : Grammar ResponseEvent) where
  -- A check that fails in httpclient_parser_execute makes it take 2^64 - 1 bytes.
  unfoldable pub response_execute :
      List ℕ
      → (len : ℕ) → HttpResponseParser g.State
      → Outcome (HttpResponseParser g.State × List ℕ × ℕ)
  unfolding on_responses move_rest
  response_execute buffer len p =
      let run = g.execute (take len buffer) p.parser in
      move_rest buffer run.1 len >>= λ rest.
      ok (on_responses run.2 (record p { parser = run.0 }), rest, run.1)

  -- httpclient_parser_finish is -1 in the error state, which counts as finished.
  unfoldable pub response_is_finished : HttpResponseParser g.State → Bool
  response_is_finished p = g.has_error p.parser || g.is_finished p.parser

  -- A read of m_error before it has a value is undefined.
  unfoldable pub response_has_error : HttpResponseParser g.State → Outcome Bool
  response_has_error p = deref p.error >>= λ e. ok (not (e == 0) || g.has_error p.parser)
