-- ===== src/Http/MethodTexts.antt =====
-- The conversions between methods and texts agree.
use sylar.Common.{◌≡◌, refl, ◌∙◌, ◌⊎◌, inl, inr, List, [], ◌∷◌, ◌++◌, Bool-cases}
use sylar.Common.Text.{Text, text_eq, text_eq_path}
use sylar.Http.Methods.{
  HttpMethod, delete_method, get_method, head_method, post_method, put_method, connect_method,
  options_method, trace_method, copy_method, lock_method, mkcol_method, move_method,
  propfind_method, proppatch_method, search_method, unlock_method, bind_method, rebind_method,
  unbind_method, acl_method, report_method, mkactivity_method, checkout_method, merge_method,
  msearch_method, notify_method, subscribe_method, unsubscribe_method, patch_method, purge_method,
  mkcalendar_method, link_method, unlink_method, source_method, invalid_method, method_map,
  first_named, string_to_http_method, chars_to_http_method, http_method_to_string,
}

-- Each method is read back from its text.
string_to_http_method-http_method_to_string :
    (m : HttpMethod) → string_to_http_method (http_method_to_string m) ≡ m
unfolding string_to_http_method http_method_to_string
string_to_http_method-http_method_to_string delete_method = refl
string_to_http_method-http_method_to_string get_method = refl
string_to_http_method-http_method_to_string head_method = refl
string_to_http_method-http_method_to_string post_method = refl
string_to_http_method-http_method_to_string put_method = refl
string_to_http_method-http_method_to_string connect_method = refl
string_to_http_method-http_method_to_string options_method = refl
string_to_http_method-http_method_to_string trace_method = refl
string_to_http_method-http_method_to_string copy_method = refl
string_to_http_method-http_method_to_string lock_method = refl
string_to_http_method-http_method_to_string mkcol_method = refl
string_to_http_method-http_method_to_string move_method = refl
string_to_http_method-http_method_to_string propfind_method = refl
string_to_http_method-http_method_to_string proppatch_method = refl
string_to_http_method-http_method_to_string search_method = refl
string_to_http_method-http_method_to_string unlock_method = refl
string_to_http_method-http_method_to_string bind_method = refl
string_to_http_method-http_method_to_string rebind_method = refl
string_to_http_method-http_method_to_string unbind_method = refl
string_to_http_method-http_method_to_string acl_method = refl
string_to_http_method-http_method_to_string report_method = refl
string_to_http_method-http_method_to_string mkactivity_method = refl
string_to_http_method-http_method_to_string checkout_method = refl
string_to_http_method-http_method_to_string merge_method = refl
string_to_http_method-http_method_to_string msearch_method = refl
string_to_http_method-http_method_to_string notify_method = refl
string_to_http_method-http_method_to_string subscribe_method = refl
string_to_http_method-http_method_to_string unsubscribe_method = refl
string_to_http_method-http_method_to_string patch_method = refl
string_to_http_method-http_method_to_string purge_method = refl
string_to_http_method-http_method_to_string mkcalendar_method = refl
string_to_http_method-http_method_to_string link_method = refl
string_to_http_method-http_method_to_string unlink_method = refl
string_to_http_method-http_method_to_string source_method = refl
string_to_http_method-http_method_to_string invalid_method = refl

-- `CharsToHttpMethod` reads a method back from any text that begins with its name, whatever follows.
chars_to_http_method-append :
    (m : HttpMethod) (rest : Text) → chars_to_http_method (http_method_to_string m ++ rest) ≡ m
unfolding chars_to_http_method http_method_to_string
chars_to_http_method-append delete_method rest = refl
chars_to_http_method-append get_method rest = refl
chars_to_http_method-append head_method rest = refl
chars_to_http_method-append post_method rest = refl
chars_to_http_method-append put_method rest = refl
chars_to_http_method-append connect_method rest = refl
chars_to_http_method-append options_method rest = refl
chars_to_http_method-append trace_method rest = refl
chars_to_http_method-append copy_method rest = refl
chars_to_http_method-append lock_method rest = refl
chars_to_http_method-append mkcol_method rest = refl
chars_to_http_method-append move_method rest = refl
chars_to_http_method-append propfind_method rest = refl
chars_to_http_method-append proppatch_method rest = refl
chars_to_http_method-append search_method rest = refl
chars_to_http_method-append unlock_method rest = refl
chars_to_http_method-append bind_method rest = refl
chars_to_http_method-append rebind_method rest = refl
chars_to_http_method-append unbind_method rest = refl
chars_to_http_method-append acl_method rest = refl
chars_to_http_method-append report_method rest = refl
chars_to_http_method-append mkactivity_method rest = refl
chars_to_http_method-append checkout_method rest = refl
chars_to_http_method-append merge_method rest = refl
chars_to_http_method-append msearch_method rest = refl
chars_to_http_method-append notify_method rest = refl
chars_to_http_method-append subscribe_method rest = refl
chars_to_http_method-append unsubscribe_method rest = refl
chars_to_http_method-append patch_method rest = refl
chars_to_http_method-append purge_method rest = refl
chars_to_http_method-append mkcalendar_method rest = refl
chars_to_http_method-append link_method rest = refl
chars_to_http_method-append unlink_method rest = refl
chars_to_http_method-append source_method rest = refl
chars_to_http_method-append invalid_method rest = refl

abbrev Named : List (HttpMethod × Text) → Type 0
Named [] = Unit
Named ((m, name) ∷ rest) = (http_method_to_string m ≡ name) × Named rest

first_named-exact :
    (t : Text) (l : List (HttpMethod × Text))
    → Named l
    → (first_named t l ≡ invalid_method) ⊎ (http_method_to_string (first_named t l) ≡ t)
unfolding first_named
first_named-exact t [] named = inl refl
first_named-exact t ((m, name) ∷ rest) (e, named) = elim (Bool-cases (text_eq name t)) [
  | inl f ↦ rw f (inr (e ∙ text_eq_path name t f))
  | inr f ↦ rw f (first_named-exact t rest named)
]

method_map-Named : Named method_map
unfolding http_method_to_string
method_map-Named = (
  refl,
  (
    refl,
    (
      refl,
      (
        refl,
        (
          refl,
          (
            refl,
            (
              refl,
              (
                refl,
                (
                  refl,
                  (
                    refl,
                    (
                      refl,
                      (
                        refl,
                        (
                          refl,
                          (
                            refl,
                            (
                              refl,
                              (
                                refl,
                                (
                                  refl,
                                  (
                                    refl,
                                    (
                                      refl,
                                      (
                                        refl,
                                        (
                                          refl,
                                          (
                                            refl,
                                            (
                                              refl,
                                              (
                                                refl,
                                                (
                                                  refl,
                                                  (
                                                    refl,
                                                    (
                                                      refl,
                                                      (
                                                        refl,
                                                        (
                                                          refl,
                                                          (
                                                            refl,
                                                            (refl, (refl, (refl, (refl, tt)))),
                                                          ),
                                                        ),
                                                      ),
                                                    ),
                                                  ),
                                                ),
                                              ),
                                            ),
                                          ),
                                        ),
                                      ),
                                    ),
                                  ),
                                ),
                              ),
                            ),
                          ),
                        ),
                      ),
                    ),
                  ),
                ),
              ),
            ),
          ),
        ),
      ),
    ),
  ),
)

-- `StringToHttpMethod` accepts nothing but the names: it is invalid, or prints as the text that was read.
string_to_http_method-exact :
    (t : Text)
    → (string_to_http_method t ≡ invalid_method)
      ⊎ (http_method_to_string (string_to_http_method t) ≡ t)
unfolding string_to_http_method
string_to_http_method-exact t = first_named-exact t method_map method_map-Named
