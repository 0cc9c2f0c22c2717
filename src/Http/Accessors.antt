-- ===== src/Http/Accessors.antt =====
-- What the accessors of the maps of a request and a response find.
use sylar.Common.{◌≡◌, refl, ap, ◌∙◌, Bool, true, false, none, some, if◌then◌else◌, Option}
use sylar.Common.Text.{Text}
use sylar.Http.Headers.{key_eq, find, find-assign, find-erase}
use sylar.Http.Request.{
  HttpRequest, HttpResponse, value_or, get_header, set_header, del_header, get_param, set_param,
  del_param, get_cookie, set_cookie, del_cookie, has_header, has_param, has_cookie,
  response_get_header, response_set_header, response_del_header,
}

value_or-set :
    (b : Bool) (v def : Text) (o : Option Text)
    → value_or (if b then some v else o) def ≡ (if b then v else value_or o def)
value_or-set true v def o = refl
value_or-set false v def o = refl

value_or-del :
    (b : Bool) (def : Text) (o : Option Text)
    → value_or (if b then none else o) def ≡ (if b then def else value_or o def)
value_or-del true def o = refl
value_or-del false def o = refl

-- After a set, a get under any spelling of the key returns the new value, and every other key what it did
-- before: for the headers, parameters and cookies of a request, and the headers of a response.
get_header-set_header :
    (key j value def : Text) (r : HttpRequest) (s : HttpResponse)
    → (get_header j def (set_header key value r)
        ≡ (if key_eq key j then value else get_header j def r))
      × (get_param j def (set_param key value r)
          ≡ (if key_eq key j then value else get_param j def r))
      × (get_cookie j def (set_cookie key value r)
          ≡ (if key_eq key j then value else get_cookie j def r))
      × (response_get_header j def (response_set_header key value s)
          ≡ (if key_eq key j then value else response_get_header j def s))
unfolding get_header set_header get_param set_param get_cookie set_cookie response_get_header
    response_set_header
get_header-set_header key j value def r s = (
  ap (λ o. value_or o def) (find-assign key j value r.headers)
      ∙ value_or-set (key_eq key j) value def (find j r.headers),
  ap (λ o. value_or o def) (find-assign key j value r.params)
      ∙ value_or-set (key_eq key j) value def (find j r.params),
  ap (λ o. value_or o def) (find-assign key j value r.cookies)
      ∙ value_or-set (key_eq key j) value def (find j r.cookies),
  ap (λ o. value_or o def) (find-assign key j value s.headers)
      ∙ value_or-set (key_eq key j) value def (find j s.headers),
)

-- After a deletion, a get under any spelling of the key returns the default and the test for it fails; every
-- other key is found as before: for the headers, parameters and cookies of a request, and the headers of a response.
get_header-del_header :
    (key j def : Text) (r : HttpRequest) (s : HttpResponse)
    → (get_header j def (del_header key r) ≡ (if key_eq key j then def else get_header j def r))
      × (has_header j (del_header key r) ≡ (if key_eq key j then none else has_header j r))
      × (get_param j def (del_param key r) ≡ (if key_eq key j then def else get_param j def r))
      × (has_param j (del_param key r) ≡ (if key_eq key j then none else has_param j r))
      × (get_cookie j def (del_cookie key r) ≡ (if key_eq key j then def else get_cookie j def r))
      × (has_cookie j (del_cookie key r) ≡ (if key_eq key j then none else has_cookie j r))
      × (response_get_header j def (response_del_header key s)
          ≡ (if key_eq key j then def else response_get_header j def s))
unfolding get_header del_header has_header get_param del_param has_param get_cookie del_cookie
    has_cookie response_get_header response_del_header
get_header-del_header key j def r s = (
  ap (λ o. value_or o def) (find-erase key j r.headers)
      ∙ value_or-del (key_eq key j) def (find j r.headers),
  find-erase key j r.headers,
  ap (λ o. value_or o def) (find-erase key j r.params)
      ∙ value_or-del (key_eq key j) def (find j r.params),
  find-erase key j r.params,
  ap (λ o. value_or o def) (find-erase key j r.cookies)
      ∙ value_or-del (key_eq key j) def (find j r.cookies),
  find-erase key j r.cookies,
  ap (λ o. value_or o def) (find-erase key j s.headers)
      ∙ value_or-del (key_eq key j) def (find j s.headers),
)
