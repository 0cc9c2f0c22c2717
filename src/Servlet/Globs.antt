-- ===== src/Servlet/Globs.antt =====
-- The globs: one entry for each pattern, and a new entry is the last that is tried.
use sylar.Common.{
  ℕ, ◌≡◌, refl, sym, ap, ◌∙◌, inl, inr, Bool, true, false, not, ◌&&◌, Option, none, some, List, [],
  ◌∷◌, ◌++◌, if◌then◌else◌, Bool-cases, Option-cases,
}
use sylar.Common.Text.{Text, text_eq, text_eq_refl, text_eq_path, text_eq_other}
use sylar.Servlet.{
  ServletDispatch, find, erase_first, new_servlet_dispatch, add_servlet, del_servlet,
  add_glob_servlet, del_glob_servlet, get_glob_servlet, get_servlet, get_matched_servlet,
  first_match,
}

abbrev pub Distinct : List (Text × ℕ) → Type 0
Distinct [] = Unit
Distinct ((u, s) ∷ rest) = (find u rest ≡ none) × Distinct rest

find-erase_first :
    (uri v : Text) (l : List (Text × ℕ))
    → Distinct l
    → find v (erase_first uri l) ≡ (if text_eq uri v then none else find v l)
unfolding erase_first
find-erase_first uri v [] d = elim (Bool-cases (text_eq uri v)) [
  | inl f ↦ rw f refl
  | inr f ↦ rw f refl
]
find-erase_first uri v ((u, s) ∷ rest) (gone, d) = elim (Bool-cases (text_eq u uri)) [
  | inl e ↦
      let same = text_eq_path u uri e in
      rw (e, same)
        (elim (Bool-cases (text_eq uri v)) [
          | inl f ↦ let to_v = text_eq_path uri v f in rw f (rw (same, to_v) at gone)
          | inr f ↦ rw f refl
        ])
  | inr e ↦
      rw (e, find-erase_first uri v rest d)
        (elim (Bool-cases (text_eq u v)) [
          | inl f ↦ let other = text_eq_other u uri v e f in rw (f, other) refl
          | inr f ↦ rw f refl
        ])
]

find-append :
    (v uri : Text) (slt : ℕ) (l : List (Text × ℕ))
    → find v (l ++ ((uri, slt) ∷ []))
      ≡ elim (find v l) [ some s ↦ some s | none ↦ if text_eq uri v then some slt else none ]
find-append v uri slt [] = refl
find-append v uri slt ((u, s) ∷ rest) = elim (Bool-cases (text_eq u v)) [
  | inl e ↦ rw e refl
  | inr e ↦ rw (e, find-append v uri slt rest) refl
]

erase_first-Distinct :
    (uri : Text) (l : List (Text × ℕ)) → Distinct l → Distinct (erase_first uri l)
unfolding erase_first
erase_first-Distinct uri [] d = tt
erase_first-Distinct uri ((u, s) ∷ rest) (gone, d) = elim (Bool-cases (text_eq u uri)) [
  | inl e ↦ rw e d
  | inr e ↦ rw e (
    find-erase_first uri u rest d ∙ none_either (text_eq uri u) (find u rest) gone,
    erase_first-Distinct uri rest d,
  )
]
  where
    none_either : (b : Bool) (o : Option ℕ) → o ≡ none → (if b then none else o) ≡ none
    none_either true o e = refl
    none_either false o e = e

append-Distinct :
    (uri : Text) (slt : ℕ) (l : List (Text × ℕ))
    → Distinct l
    → find uri l ≡ none
    → Distinct (l ++ ((uri, slt) ∷ []))
append-Distinct uri slt [] d e = (refl, tt)
append-Distinct uri slt ((u, s) ∷ rest) (gone, d) e = elim (Bool-cases (text_eq u uri)) [
  | inl f ↦ absurd (let bad : some s ≡ none = rw f at e in cc)
  | inr f ↦
      let other : text_eq uri u ≡ false = elim (Bool-cases (text_eq uri u)) [
        | inl g ↦
            let path = text_eq_path uri u g in
            absurd (
              let bad : true ≡ false = sym g ∙ ap (text_eq uri) (sym path) ∙ rw (sym path) at f in
              cc)
        | inr g ↦ g
      ] in
      (
        find-append u uri slt rest ∙ (rw (gone, other) refl),
        append-Distinct uri slt rest d (rw f at e),
      )
]

first_match-append :
    (fnmatch : Text → Text → Bool) (v uri : Text) (slt default_servlet : ℕ) (l : List (Text × ℕ))
    → first_match fnmatch v (l ++ ((uri, slt) ∷ [])) default_servlet
      ≡ first_match fnmatch v l (if fnmatch uri v then slt else default_servlet)
unfolding first_match
first_match-append fnmatch v uri slt default_servlet [] = refl
first_match-append fnmatch v uri slt default_servlet ((u, s) ∷ rest) =
    rw (first_match-append fnmatch v uri slt default_servlet rest) refl

-- The globs hold each pattern once: the invariant of the dispatcher.
abbrev pub IsValid : ServletDispatch → Type 0
IsValid d = Distinct d.globs

-- A new dispatcher is valid, and adding and deleting servlets and globs keeps it so.
add_glob_servlet-IsValid :
    (uri : Text) (slt : ℕ) (d : ServletDispatch)
    → IsValid d
    → IsValid (add_glob_servlet uri slt d)
      × IsValid (del_glob_servlet uri d)
      × IsValid (add_servlet uri slt d)
      × IsValid (del_servlet uri d)
      × IsValid (new_servlet_dispatch slt)
unfolding add_glob_servlet del_glob_servlet add_servlet del_servlet new_servlet_dispatch
add_glob_servlet-IsValid uri slt d v =
    let left = erase_first-Distinct uri d.globs v in
    (
      append-Distinct uri slt (erase_first uri d.globs) left
          (find-erase_first uri uri d.globs v ∙ (rw (text_eq_refl uri) refl)),
      left,
      v,
      v,
      tt,
    )

-- In a valid dispatcher, `add_glob_servlet` sets the servlet of its pattern and `del_glob_servlet` removes it; the
-- other patterns keep theirs.
get_glob_servlet-add_glob_servlet :
    (uri v : Text) (slt : ℕ) (d : ServletDispatch)
    → IsValid d
    → (get_glob_servlet v (add_glob_servlet uri slt d)
        ≡ (if text_eq uri v then some slt else get_glob_servlet v d))
      × (get_glob_servlet v (del_glob_servlet uri d)
          ≡ (if text_eq uri v then none else get_glob_servlet v d))
unfolding add_glob_servlet del_glob_servlet get_glob_servlet
get_glob_servlet-add_glob_servlet uri v slt d valid =
    let erased = find-erase_first uri v d.globs valid in
    (
      find-append v uri slt (erase_first uri d.globs)
          ∙ (rw erased (last (text_eq uri v) (find v d.globs))),
      erased,
    )
  where
    last :
        (b : Bool) (o : Option ℕ)
        → elim (if b then none else o) [ some s ↦ some s | none ↦ if b then some slt else none ]
          ≡ (if b then some slt else o)
    last true o = refl
    last false none = refl
    last false (some s) = refl

-- The first glob with another pattern that matches: those with this pattern do not count.
abbrev pub other_match : (Text → Text → Bool) → (uri v : Text) → List (Text × ℕ) → Option ℕ
other_match fnmatch uri v [] = none
other_match fnmatch uri v ((u, s) ∷ rest) =
    if not (text_eq u uri) && fnmatch u v then some s else other_match fnmatch uri v rest

abbrev pub or_else : Option ℕ → ℕ → ℕ
or_else none s = s
or_else (some t) s = t

-- Where the pattern is not, all count.
other_match-absent :
    (fnmatch : Text → Text → Bool) (uri v : Text) (last : ℕ) (l : List (Text × ℕ))
    → find uri l ≡ none
    → first_match fnmatch v l last ≡ or_else (other_match fnmatch uri v l) last
unfolding first_match
other_match-absent fnmatch uri v last [] e = refl
other_match-absent fnmatch uri v last ((u, s) ∷ rest) e = elim (Bool-cases (text_eq u uri)) [
  | inl same ↦ absurd (let bad : some s ≡ none = rw same at e in cc)
  | inr other ↦
      let later = other_match-absent fnmatch uri v last rest (rw other at e) in
      rw other (elim (Bool-cases (fnmatch u v)) [ inl f ↦ rw f refl | inr f ↦ rw f later ])
]

erase_first-other_match :
    (fnmatch : Text → Text → Bool) (uri v : Text) (last : ℕ) (l : List (Text × ℕ))
    → Distinct l
    → first_match fnmatch v (erase_first uri l) last ≡ or_else (other_match fnmatch uri v l) last
unfolding erase_first first_match
erase_first-other_match fnmatch uri v last [] d = refl
erase_first-other_match fnmatch uri v last ((u, s) ∷ rest) (gone, d) =
    elim (Bool-cases (text_eq u uri)) [
      | inl same ↦
          let path = text_eq_path u uri same in
          rw same (other_match-absent fnmatch uri v last rest (rw path at gone))
      | inr other ↦
          let later = erase_first-other_match fnmatch uri v last rest d in
          rw other (elim (Bool-cases (fnmatch u v)) [ inl f ↦ rw f refl | inr f ↦ rw f later ])
    ]

-- In a dispatcher that holds each pattern of a glob once, after addGlobServlet a path gets its exact servlet, if it
-- has one; else that of the first glob with another pattern that matches, if there is one; else the new one, if the
-- new pattern matches, and the default otherwise. After delGlobServlet it gets the same but for the new one.
pub get_matched_servlet-add_glob_servlet :
    (fnmatch : Text → Text → Bool) (uri v : Text) (slt : ℕ) (d : ServletDispatch)
    → IsValid d
    → (get_matched_servlet fnmatch v (add_glob_servlet uri slt d)
        ≡ or_else (get_servlet v d) (
            or_else
              (other_match fnmatch uri v d.globs)
              (if fnmatch uri v then slt else d.default_servlet)))
      × (get_matched_servlet fnmatch v (del_glob_servlet uri d)
          ≡ or_else
              (get_servlet v d)
              (or_else (other_match fnmatch uri v d.globs) d.default_servlet))
unfolding get_matched_servlet add_glob_servlet del_glob_servlet get_servlet
get_matched_servlet-add_glob_servlet fnmatch uri v slt d valid =
    let last = if fnmatch uri v then slt else d.default_servlet in
    elim (Option-cases (find v d.datas)) [
      | inl e ↦
          rw (e, get_matched_servlet)
            (
              first_match-append fnmatch v uri slt d.default_servlet (erase_first uri d.globs)
                  ∙ erase_first-other_match fnmatch uri v last d.globs valid,
              erase_first-other_match fnmatch uri v d.default_servlet d.globs valid,
            )
      | inr (s, e) ↦ rw (e, get_matched_servlet) (refl, refl)
    ]
