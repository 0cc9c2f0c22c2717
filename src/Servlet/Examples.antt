-- ===== src/Servlet/Examples.antt =====
-- A dispatcher with one exact URI and two globs.
use sylar.Common.{◌≡◌, refl, Bool, true, false, [], ◌∷◌, if◌then◌else◌}
use sylar.Common.Text.{Text, text_eq, codes}
use sylar.Servlet.{
  ServletDispatch, new_servlet_dispatch, add_servlet, add_glob_servlet, del_glob_servlet,
  get_servlet, get_matched_servlet,
}
use sylar.Servlet.Globs.{IsValid, get_matched_servlet-add_glob_servlet}

-- fnmatch for the patterns of these runs: `*` at the end stands for any rest.
abbrev star : Text → Text → Bool
star [] [] = true
star [] (c ∷ cs) = false
star (p ∷ ps) [] = text_eq (p ∷ ps) (codes "*")
star (p ∷ ps) (c ∷ cs) =
    if text_eq (p ∷ ps) (codes "*")
    then true
    else (if text_eq (p ∷ []) (c ∷ []) then star ps cs else false)

abbrev site : ServletDispatch
site =
    add_glob_servlet (codes "/*") 3
      (add_glob_servlet (codes "/a/*") 2 (add_servlet (codes "/a/b") 1 (new_servlet_dispatch 404)))

exact : get_matched_servlet star (codes "/a/b") site ≡ 1
unfolding get_matched_servlet add_glob_servlet add_servlet new_servlet_dispatch
exact = refl

first_glob : get_matched_servlet star (codes "/a/c") site ≡ 2
unfolding get_matched_servlet add_glob_servlet add_servlet new_servlet_dispatch
first_glob = refl

nothing : get_matched_servlet star (codes "x") site ≡ 404
unfolding get_matched_servlet add_glob_servlet add_servlet new_servlet_dispatch
nothing = refl

site-IsValid : IsValid site
unfolding add_glob_servlet add_servlet new_servlet_dispatch
site-IsValid = (refl, (refl, tt))

-- The pattern /* is given another servlet: /a/* still comes first for a path of its own.
get_matched_servlet-add_glob_servlet_example :
    (get_matched_servlet star (codes "/a/c") (add_glob_servlet (codes "/*") 8 site) ≡ 2)
    × (get_matched_servlet star (codes "/a/c") (del_glob_servlet (codes "/*") site) ≡ 2)
unfolding add_glob_servlet add_servlet new_servlet_dispatch get_servlet
get_matched_servlet-add_glob_servlet_example =
    get_matched_servlet-add_glob_servlet star (codes "/*") (codes "/a/c") 8 site site-IsValid
