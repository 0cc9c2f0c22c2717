-- ===== src/Servlet/Lookup.antt =====
-- Which servlet a path gets after a servlet for an exact URI was added or deleted.
use sylar.Common.{
  ℕ, ◌≡◌, refl, inl, inr, Bool, none, some, List, [], ◌∷◌, if◌then◌else◌, Bool-cases,
}
use sylar.Common.Text.{Text, text_eq, text_eq_path, text_eq_other}
use sylar.Servlet.{
  ServletDispatch, find, assign, erase_key, add_servlet, del_servlet, get_matched_servlet,
  first_match,
}

pub find-assign :
    (uri v : Text) (slt : ℕ) (l : List (Text × ℕ))
    → find v (assign uri slt l) ≡ (if text_eq uri v then some slt else find v l)
find-assign uri v slt [] = refl
find-assign uri v slt ((u, s) ∷ rest) = elim (Bool-cases (text_eq u uri)) [
  | inl e ↦
      let same = text_eq_path u uri e in
      rw (e, same) (elim (Bool-cases (text_eq uri v)) [ inl f ↦ rw f refl | inr f ↦ rw f refl ])
  | inr e ↦
      rw (e, find-assign uri v slt rest)
        (elim (Bool-cases (text_eq u v)) [
          | inl f ↦ let other = text_eq_other u uri v e f in rw (f, other) refl
          | inr f ↦ rw f refl
        ])
]

pub find-erase_key :
    (uri v : Text) (l : List (Text × ℕ))
    → find v (erase_key uri l) ≡ (if text_eq uri v then none else find v l)
find-erase_key uri v [] = elim (Bool-cases (text_eq uri v)) [
  | inl f ↦ rw f refl
  | inr f ↦ rw f refl
]
find-erase_key uri v ((u, s) ∷ rest) = elim (Bool-cases (text_eq u uri)) [
  | inl e ↦
      let same = text_eq_path u uri e in
      rw (e, find-erase_key uri v rest, same)
        (elim (Bool-cases (text_eq uri v)) [ inl f ↦ rw f refl | inr f ↦ rw f refl ])
  | inr e ↦
      rw (e, find-erase_key uri v rest)
        (elim (Bool-cases (text_eq u v)) [
          | inl f ↦ let other = text_eq_other u uri v e f in rw (f, other) refl
          | inr f ↦ rw f refl
        ])
]

-- After `add_servlet`, the path of the URI gets the new servlet, whatever the globs say, and every other path
-- what it got before.
get_matched_servlet-add_servlet :
    (fnmatch : Text → Text → Bool) (uri v : Text) (slt : ℕ) (d : ServletDispatch)
    → get_matched_servlet fnmatch v (add_servlet uri slt d)
      ≡ (if text_eq uri v then slt else get_matched_servlet fnmatch v d)
unfolding get_matched_servlet add_servlet
get_matched_servlet-add_servlet fnmatch uri v slt d =
    rw (find-assign uri v slt d.datas, get_matched_servlet)
      (elim (Bool-cases (text_eq uri v)) [ inl e ↦ rw e refl | inr e ↦ rw e refl ])

-- After `del_servlet`, the path of the URI gets the first glob that matches, or the default servlet, and
-- every other path what it got before.
get_matched_servlet-del_servlet :
    (fnmatch : Text → Text → Bool) (uri v : Text) (d : ServletDispatch)
    → get_matched_servlet fnmatch v (del_servlet uri d) ≡ (
        if text_eq uri v
        then first_match fnmatch v d.globs d.default_servlet
        else get_matched_servlet fnmatch v d)
unfolding get_matched_servlet del_servlet
get_matched_servlet-del_servlet fnmatch uri v d =
    rw (find-erase_key uri v d.datas, get_matched_servlet)
      (elim (Bool-cases (text_eq uri v)) [ inl e ↦ rw e refl | inr e ↦ rw e refl ])
