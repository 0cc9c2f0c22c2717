-- ===== src/Http/Parser/Accepting.antt =====
-- When the callbacks of a request report an error, and what they fill in.
use sylar.Common.{
  ℕ, ◌<◌, ◌≡◌, refl, ap, ◌∙◌, inl, inr, Bool, true, false, ◌&&◌, Option, none, some, List, [], ◌∷◌,
  length, ◌==◌, if◌then◌else◌, Bool-cases, Option-cases,
}
use sylar.Http.Methods.{chars_to_http_method}
use sylar.Http.Parser.{
  RequestEvent, request_method, request_uri, fragment, request_path, query_string, http_version,
  header_done, http_field, HttpRequestParser, set_error, version_of, is_invalid, on_request_method,
  on_request_version, set_version, on_request_http_field, on_request, on_requests,
}

abbrev version_code : Option ℕ → Option ℕ
version_code none = some 1001
version_code (some v) = none

-- The code that an event leaves, none when it is accepted.
abbrev pub code_of : RequestEvent → Option ℕ
code_of (request_method at n) = if is_invalid (chars_to_http_method at) then some 1000 else none
code_of (request_uri at n) = none
code_of (fragment at n) = none
code_of (request_path at n) = none
code_of (query_string at n) = none
code_of (http_version at n) = version_code (version_of at n)
code_of (header_done at n) = none
code_of (http_field field value) = if length field == 0 then some 1002 else none

abbrev is_none : Option ℕ → Bool
is_none none = true
is_none (some c) = false

abbrev pub accepted : List RequestEvent → Bool
accepted [] = true
accepted (e ∷ es) = is_none (code_of e) && accepted es

abbrev code_or : ℕ → Option ℕ → ℕ
code_or code none = code
code_or code (some c) = c

-- The code of the last event that has one.
abbrev pub last_code : ℕ → List RequestEvent → ℕ
last_code code [] = code
last_code code (e ∷ es) = last_code (code_or code (code_of e)) es

module _ {S : Type 0} where
  on_request-error :
      (e : RequestEvent) (p : HttpRequestParser S)
      → (on_request e p).error ≡ code_or p.error (code_of e)
  unfolding on_request on_request_method on_request_version set_version on_request_http_field
      set_error
  on_request-error (request_method at n) p =
      elim (Bool-cases (is_invalid (chars_to_http_method at))) [
        | inl e ↦ rw e refl
        | inr e ↦ rw e refl
      ]
  on_request-error (request_uri at n) p = refl
  on_request-error (fragment at n) p = refl
  on_request-error (request_path at n) p = refl
  on_request-error (query_string at n) p = refl
  on_request-error (http_version at n) p = elim (Option-cases (version_of at n)) [
    | inl e ↦ rw e refl
    | inr (v, e) ↦ rw e refl
  ]
  on_request-error (header_done at n) p = refl
  on_request-error (http_field field value) p = elim (Bool-cases (length field == 0)) [
    | inl e ↦ rw e refl
    | inr e ↦ rw e refl
  ]

  pub on_requests-last_code :
      (es : List RequestEvent) (p : HttpRequestParser S)
      → (on_requests es p).error ≡ last_code p.error es
  unfolding on_requests
  on_requests-last_code [] p = refl
  on_requests-last_code (e ∷ es) p =
      on_requests-last_code es (on_request e p)
      ∙ ap (λ (c : ℕ). last_code c es) (on_request-error e p)

abbrev IsPositive : Option ℕ → Type 0
IsPositive none = Unit
IsPositive (some c) = 0 < c
