-- ===== src/Servlet.antt =====
-- sylar/http/servlet.h and servlet.cpp: the dispatch of a request's path to a servlet. Servlets are
-- numbers, URIs texts; `fnmatch` of the C library is a parameter (whether it returned 0). Each method runs under
-- the lock of the dispatcher.
pub mod Lookup
pub mod Globs
mod Examples
use sylar.Common.{ℕ, Bool, true, false, Option, none, some, List, [], ◌∷◌, ◌++◌, if◌then◌else◌}
use sylar.Common.Text.{Text, text_eq}

-- `datas` is the unordered_map, one entry for each URI; `globs` the vector.
pub record ServletDispatch : Type 0 where
  pub datas : List (Text × ℕ)
  pub globs : List (Text × ℕ)
  pub default_servlet : ℕ

-- unordered_map::find, and operator[] with an assignment.
abbrev pub find : Text → List (Text × ℕ) → Option ℕ
find uri [] = none
find uri ((u, s) ∷ rest) = if text_eq u uri then some s else find uri rest

abbrev pub assign : Text → ℕ → List (Text × ℕ) → List (Text × ℕ)
assign uri slt [] = (uri, slt) ∷ []
assign uri slt ((u, s) ∷ rest) =
    if text_eq u uri then (u, slt) ∷ rest else (u, s) ∷ assign uri slt rest

-- unordered_map::erase(key), which removes all entries of the key.
abbrev pub erase_key : Text → List (Text × ℕ) → List (Text × ℕ)
erase_key uri [] = []
erase_key uri ((u, s) ∷ rest) =
    if text_eq u uri then erase_key uri rest else (u, s) ∷ erase_key uri rest

-- The loop that erases the first entry of a URI from the vector.
unfoldable pub erase_first : Text → List (Text × ℕ) → List (Text × ℕ)
erase_first uri [] = []
erase_first uri ((u, s) ∷ rest) = if text_eq u uri then rest else (u, s) ∷ erase_first uri rest

-- ServletDispatch(), with the servlet that it makes for paths not found.
unfoldable pub new_servlet_dispatch : ℕ → ServletDispatch
new_servlet_dispatch not_found = record { datas = []; globs = []; default_servlet = not_found }

unfoldable pub add_servlet : Text → ℕ → ServletDispatch → ServletDispatch
add_servlet uri slt d = record d { datas = assign uri slt d.datas }

unfoldable pub add_glob_servlet : Text → ℕ → ServletDispatch → ServletDispatch
unfolding erase_first
add_glob_servlet uri slt d = record d { globs = erase_first uri d.globs ++ ((uri, slt) ∷ []) }

unfoldable pub del_servlet : Text → ServletDispatch → ServletDispatch
del_servlet uri d = record d { datas = erase_key uri d.datas }

unfoldable pub del_glob_servlet : Text → ServletDispatch → ServletDispatch
unfolding erase_first
del_glob_servlet uri d = record d { globs = erase_first uri d.globs }

unfoldable pub set_default : ℕ → ServletDispatch → ServletDispatch
set_default slt d = record d { default_servlet = slt }

-- A null pointer is `none`.
unfoldable pub get_servlet : Text → ServletDispatch → Option ℕ
get_servlet uri d = find uri d.datas

unfoldable pub get_glob_servlet : Text → ServletDispatch → Option ℕ
get_glob_servlet uri d = find uri d.globs

-- The loop over the globs, and what follows it.
unfoldable pub first_match : (Text → Text → Bool) → Text → List (Text × ℕ) → ℕ → ℕ
first_match fnmatch uri [] default_servlet = default_servlet
first_match fnmatch uri ((pattern', s) ∷ rest) default_servlet =
    if fnmatch pattern' uri then s else first_match fnmatch uri rest default_servlet

unfoldable pub get_matched_servlet : (Text → Text → Bool) → Text → ServletDispatch → ℕ
unfolding first_match
get_matched_servlet fnmatch uri d = elim (find uri d.datas) [
  | some s ↦ s
  | none ↦ first_match fnmatch uri d.globs d.default_servlet
]
