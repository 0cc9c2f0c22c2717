-- ===== src/Http/Methods.antt =====
-- The methods of HTTP_METHOD_MAP, and the conversions that its macros generate.
use sylar.Common.{
  ℕ, zero, suc, Bool, true, false, ◌&&◌, List, [], ◌∷◌, length, leb, ◌==◌, if◌then◌else◌,
}
use sylar.Common.Text.{Text, text_eq, codes}

-- The enumerators carry the suffix `_method`.
pub data HttpMethod : Type 0 where
  delete_method : HttpMethod
  get_method : HttpMethod
  head_method : HttpMethod
  post_method : HttpMethod
  put_method : HttpMethod
  connect_method : HttpMethod
  options_method : HttpMethod
  trace_method : HttpMethod
  copy_method : HttpMethod
  lock_method : HttpMethod
  mkcol_method : HttpMethod
  move_method : HttpMethod
  propfind_method : HttpMethod
  proppatch_method : HttpMethod
  search_method : HttpMethod
  unlock_method : HttpMethod
  bind_method : HttpMethod
  rebind_method : HttpMethod
  unbind_method : HttpMethod
  acl_method : HttpMethod
  report_method : HttpMethod
  mkactivity_method : HttpMethod
  checkout_method : HttpMethod
  merge_method : HttpMethod
  msearch_method : HttpMethod
  notify_method : HttpMethod
  subscribe_method : HttpMethod
  unsubscribe_method : HttpMethod
  patch_method : HttpMethod
  purge_method : HttpMethod
  mkcalendar_method : HttpMethod
  link_method : HttpMethod
  unlink_method : HttpMethod
  source_method : HttpMethod
  invalid_method : HttpMethod

-- HTTP_METHOD_MAP: the names and the strings, in the order of their numbers.
abbrev pub method_map : List (HttpMethod × Text)
method_map =
    (delete_method, codes "DELETE")
    ∷ (get_method, codes "GET")
    ∷ (head_method, codes "HEAD")
    ∷ (post_method, codes "POST")
    ∷ (put_method, codes "PUT")
    ∷ (connect_method, codes "CONNECT")
    ∷ (options_method, codes "OPTIONS")
    ∷ (trace_method, codes "TRACE")
    ∷ (copy_method, codes "COPY")
    ∷ (lock_method, codes "LOCK")
    ∷ (mkcol_method, codes "MKCOL")
    ∷ (move_method, codes "MOVE")
    ∷ (propfind_method, codes "PROPFIND")
    ∷ (proppatch_method, codes "PROPPATCH")
    ∷ (search_method, codes "SEARCH")
    ∷ (unlock_method, codes "UNLOCK")
    ∷ (bind_method, codes "BIND")
    ∷ (rebind_method, codes "REBIND")
    ∷ (unbind_method, codes "UNBIND")
    ∷ (acl_method, codes "ACL")
    ∷ (report_method, codes "REPORT")
    ∷ (mkactivity_method, codes "MKACTIVITY")
    ∷ (checkout_method, codes "CHECKOUT")
    ∷ (merge_method, codes "MERGE")
    ∷ (msearch_method, codes "M-SEARCH")
    ∷ (notify_method, codes "NOTIFY")
    ∷ (subscribe_method, codes "SUBSCRIBE")
    ∷ (unsubscribe_method, codes "UNSUBSCRIBE")
    ∷ (patch_method, codes "PATCH")
    ∷ (purge_method, codes "PURGE")
    ∷ (mkcalendar_method, codes "MKCALENDAR")
    ∷ (link_method, codes "LINK")
    ∷ (unlink_method, codes "UNLINK")
    ∷ (source_method, codes "SOURCE")
    ∷ []

-- The enumerator's number.
abbrev pub number : HttpMethod → ℕ
number delete_method = 0
number get_method = 1
number head_method = 2
number post_method = 3
number put_method = 4
number connect_method = 5
number options_method = 6
number trace_method = 7
number copy_method = 8
number lock_method = 9
number mkcol_method = 10
number move_method = 11
number propfind_method = 12
number proppatch_method = 13
number search_method = 14
number unlock_method = 15
number bind_method = 16
number rebind_method = 17
number unbind_method = 18
number acl_method = 19
number report_method = 20
number mkactivity_method = 21
number checkout_method = 22
number merge_method = 23
number msearch_method = 24
number notify_method = 25
number subscribe_method = 26
number unsubscribe_method = 27
number patch_method = 28
number purge_method = 29
number mkcalendar_method = 30
number link_method = 31
number unlink_method = 32
number source_method = 33
number invalid_method = 34

-- The tests that XX expands to, one after the other: strcmp, and strncmp with the length of the name.
unfoldable pub first_named : Text → List (HttpMethod × Text) → HttpMethod
first_named m [] = invalid_method
first_named m ((method, name) ∷ rest) = if text_eq name m then method else first_named m rest

abbrev pub starts_with : Text → Text → Bool
starts_with [] m = true
starts_with (c ∷ cs) [] = false
starts_with (c ∷ cs) (d ∷ ds) = (c == d) && starts_with cs ds

unfoldable pub first_prefix : Text → List (HttpMethod × Text) → HttpMethod
first_prefix m [] = invalid_method
first_prefix m ((method, name) ∷ rest) = if starts_with name m then method else first_prefix m rest

unfoldable pub string_to_http_method : Text → HttpMethod
unfolding first_named
string_to_http_method m = first_named m method_map

-- The characters run on to the 0 that ends them.
unfoldable pub chars_to_http_method : Text → HttpMethod
unfolding first_prefix
chars_to_http_method m = first_prefix m method_map

abbrev name_at : List (HttpMethod × Text) → ℕ → Text
name_at [] i = codes "<unknown>"
name_at ((method, name) ∷ rest) zero = name
name_at ((method, name) ∷ rest) (suc i) = name_at rest i

-- s_method_string[idx], with the test of its bounds.
unfoldable pub http_method_to_string : HttpMethod → Text
http_method_to_string m =
    if leb (length method_map) (number m) then codes "<unknown>" else name_at method_map (number m)
