-- ===== src/Http/Headers.antt =====
-- The maps of headers, parameters and cookies: std::map under CaseInsensitiveLess.
use sylar.Common.{
  ℕ, ◌+◌, ◌≡◌, refl, sym, ap, ◌∙◌, arith, inl, inr, Bool, true, false, not, ◌&&◌, Option, none,
  some, List, [], ◌∷◌, map, ltb, leb, ◌==◌, if◌then◌else◌, Bool-cases,
}
use sylar.Common.Text.{Text, text_eq, text_eq_path, text_eq_other}

-- tolower of the C locale.
abbrev pub to_lower : ℕ → ℕ
to_lower c = if leb 65 c && leb c 90 then c + 32 else c

-- `strcasecmp(lhs, rhs) < 0`, on texts without a 0.
unfoldable pub case_insensitive_less : Text → Text → Bool
case_insensitive_less [] [] = false
case_insensitive_less [] (b ∷ bs) = true
case_insensitive_less (a ∷ xs) [] = false
case_insensitive_less (a ∷ xs) (b ∷ bs) =
    let rest = case_insensitive_less xs bs in
    if ltb (to_lower a) (to_lower b)
    then true
    else (if ltb (to_lower b) (to_lower a) then false else rest)

-- Two keys are one to the map when neither is less.
abbrev pub key_eq : Text → Text → Bool
key_eq a b = not (case_insensitive_less a b) && not (case_insensitive_less b a)

abbrev pub MapType : Type 0
MapType = List (Text × Text)

unfoldable pub find : Text → MapType → Option Text
unfolding case_insensitive_less
find key [] = none
find key ((k, v) ∷ rest) = if key_eq k key then some v else find key rest

-- m[key] = value: the key that is there keeps its spelling.
unfoldable pub assign : Text → Text → MapType → MapType
unfolding case_insensitive_less
assign key value [] = (key, value) ∷ []
assign key value ((k, v) ∷ rest) =
    if case_insensitive_less key k
    then (key, value) ∷ ((k, v) ∷ rest)
    else (if case_insensitive_less k key then (k, v) ∷ assign key value rest else (k, value) ∷ rest)

unfoldable pub erase : Text → MapType → MapType
unfolding case_insensitive_less
erase key [] = []
erase key ((k, v) ∷ rest) = if key_eq k key then erase key rest else (k, v) ∷ erase key rest

-- The keys of the map are texts up to the case of their letters.
key_eq-text_eq : (a b : Text) → key_eq a b ≡ text_eq (map to_lower a) (map to_lower b)
unfolding case_insensitive_less
key_eq-text_eq [] [] = refl
key_eq-text_eq [] (b ∷ bs) = refl
key_eq-text_eq (a ∷ xs) [] = refl
key_eq-text_eq (a ∷ xs) (b ∷ bs) = go (to_lower a) (to_lower b) (key_eq-text_eq xs bs)
  where
    go :
        (m n : ℕ)
        → key_eq xs bs ≡ text_eq (map to_lower xs) (map to_lower bs)
        → (not (if ltb m n then true else (if ltb n m then false else case_insensitive_less xs bs))
            && not (
                if ltb n m then true else (if ltb m n then false else case_insensitive_less bs xs)))
          ≡ ((m == n) && text_eq (map to_lower xs) (map to_lower bs))
    go m n tail = elim (Bool-cases (ltb m n)) [
      | inl e ↦ let differ : (m == n) ≡ false = ground (arith, e) in rw (e, differ) refl
      | inr e ↦ rw e (elim (Bool-cases (ltb n m)) [
        | inl f ↦ let differ : (m == n) ≡ false = ground (arith, f) in rw (f, differ) (ground arith)
        | inr f ↦ let same : (m == n) ≡ true = ground (arith, e, f) in rw (f, same) tail
      ])
    ]

pub key_eq-other : (u v w : Text) → key_eq u v ≡ false → key_eq u w ≡ true → key_eq v w ≡ false
key_eq-other u v w e f =
    key_eq-text_eq v w
    ∙ text_eq_other (map to_lower u) (map to_lower v) (map to_lower w)
        (sym (key_eq-text_eq u v) ∙ e) (sym (key_eq-text_eq u w) ∙ f)

-- Keys that are one stand for each other.
pub key_eq-same : (u v w : Text) → key_eq u v ≡ true → key_eq u w ≡ key_eq v w
key_eq-same u v w e =
    let path = text_eq_path (map to_lower u) (map to_lower v) (sym (key_eq-text_eq u v) ∙ e) in
    key_eq-text_eq u w ∙ ap (λ t. text_eq t (map to_lower w)) path ∙ sym (key_eq-text_eq v w)

pub find-assign :
    (key j value : Text) (m : MapType)
    → find j (assign key value m) ≡ (if key_eq key j then some value else find j m)
unfolding find assign
find-assign key j value [] = refl
find-assign key j value ((k, v) ∷ rest) = elim (Bool-cases (case_insensitive_less key k)) [
  | inl e ↦ rw e refl
  | inr e ↦ rw e (elim (Bool-cases (case_insensitive_less k key)) [
    | inl f ↦
        let differ : key_eq k key ≡ false = rw f refl in
        rw (f, find-assign key j value rest)
          (elim (Bool-cases (key_eq k j)) [
            | inl g ↦ let other = key_eq-other k key j differ g in rw (g, other) refl
            | inr g ↦ rw g refl
          ])
    | inr f ↦
        let same = key_eq-same k key j (rw (f, e) refl) in
        rw (f, same) (elim (Bool-cases (key_eq key j)) [ inl g ↦ rw g refl | inr g ↦ rw g refl ])
  ])
]

pub find-erase :
    (key j : Text) (m : MapType) → find j (erase key m) ≡ (if key_eq key j then none else find j m)
unfolding find erase
find-erase key j [] = elim (Bool-cases (key_eq key j)) [ inl g ↦ rw g refl | inr g ↦ rw g refl ]
find-erase key j ((k, v) ∷ rest) = elim (Bool-cases (key_eq k key)) [
  | inl e ↦
      let same = key_eq-same k key j e in
      rw (e, find-erase key j rest, same)
        (elim (Bool-cases (key_eq key j)) [ inl g ↦ rw g refl | inr g ↦ rw g refl ])
  | inr e ↦
      rw (e, find-erase key j rest)
        (elim (Bool-cases (key_eq k j)) [
          | inl g ↦ let other = key_eq-other k key j e g in rw (g, other) refl
          | inr g ↦ rw g refl
        ])
]
