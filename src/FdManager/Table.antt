-- ===== src/FdManager/Table.antt =====
-- What `get` and `del` do to the table.
use sylar.Common.{
  ℕ, zero, suc, ◌-◌, ◌*◌, ◌/◌, ◌≤◌, ◌<◌, ◌≡◌, refl, sym, ap, ◌∙◌, arith, inl, inr, Bool, true,
  false, Option, none, some, List, [], ◌∷◌, length, length-append, length-take, length-replicate,
  set, take, replicate, ltb, ◌==◌, if◌then◌else◌, Bool-cases, Option-cases,
}
use sylar.Common.Outcome.{ok}
use sylar.FdManager.{FdCtx, FdManager, new_fd_ctx, resize, enlarged, entry, get}

entry-nothing : (n j : ℕ) → entry j (replicate n none) ≡ none
entry-nothing zero j = refl
entry-nothing (suc n) zero = refl
entry-nothing (suc n) (suc j) = entry-nothing n j

entry-resize :
    (size : ℕ) (l : List (Option FdCtx)) (j : ℕ)
    → length l ≤ size
    → entry j (resize size l) ≡ entry j l
entry-resize zero [] j h = refl
entry-resize (suc size) [] j h = entry-nothing (suc size - 0) j
entry-resize zero (x ∷ l) j h = absurd (omega arith)
entry-resize (suc size) (x ∷ l) zero h = refl
entry-resize (suc size) (x ∷ l) (suc j) h =
    let same : suc size - suc (length l) ≡ size - length l = omega arith in
    rw same (entry-resize size l j (omega arith))

pub entry-set :
    (l : List (Option FdCtx)) (i j : ℕ) (o : Option FdCtx)
    → i < length l
    → entry j (set l i o) ≡ (if i == j then o else entry j l)
entry-set [] i j o h = absurd (omega arith)
entry-set (x ∷ l) zero zero o h = refl
entry-set (x ∷ l) zero (suc j) o h =
    let differ : (0 == suc j) ≡ false = ground arith in rw differ refl
entry-set (x ∷ l) (suc i) zero o h =
    let differ : (suc i == 0) ≡ false = ground arith in rw differ refl
entry-set (x ∷ l) (suc i) (suc j) o h =
    let same : (suc i == suc j) ≡ (i == j) = ground arith in
    rw same (entry-set l i j o (omega arith))

pub entry-lt : (l : List (Option FdCtx)) (fd : ℕ) {c : FdCtx} → entry fd l ≡ some c → fd < length l
entry-lt [] fd e = absurd cc
entry-lt (x ∷ l) zero e = omega arith
entry-lt (x ∷ l) (suc fd) e = let inside = entry-lt l fd e in omega arith

entry-enlarged :
    (fd : ℕ) (l : List (Option FdCtx))
    → 2 ≤ length l
    → (fd < length (enlarged fd l)) × ((j : ℕ) → entry j (enlarged fd l) ≡ entry j l)
unfolding enlarged
entry-enlarged fd l many = elim (Bool-cases (ltb fd (length l))) [
  | inl e ↦ rw (e, enlarged) (ground (arith, e), λ j. refl)
  | inr e ↦
      let size = fd * 3 / 2 in
      let long : length l ≤ size = ground (arith, e, many) in
      let total : length (resize size l) ≡ size =
        length-append (take size l) (replicate (size - length l) none)
        ∙ (rw (length-take size l, length-replicate {A = Option FdCtx} (size - length l) none)
            (omega arith)) in
      rw (e, enlarged) (rw total (ground (arith, e, many)), λ j. entry-resize size l j long)
]

-- `get` with auto_create, on a table of at least two places (the constructor makes 64), gives a context, the one
-- that is there or a new one; then the table holds it for that descriptor, and for every other what it held.
get-entry :
    (stat : Option Bool) (nonblock : Bool) (fd : ℕ) (m : FdManager)
    → 2 ≤ length m.datas
    → (n : FdManager) × (c : FdCtx) × (get stat nonblock fd true m ≡ ok (n, some c))
      × ((j : ℕ) → entry j n.datas ≡ (if fd == j then some c else entry j m.datas))
unfolding get
get-entry stat nonblock fd m many = elim (Option-cases (entry fd m.datas)) [
  | inr (c, e) ↦ (
    m,
    c,
    rw (e, get) refl,
    λ j. elim (Bool-cases (fd == j)) [
      | inl f ↦
          let same : fd ≡ j = ground (arith, f) in rw f (ap (λ i. entry i m.datas) (sym same) ∙ e)
      | inr f ↦ rw f refl
    ],
  )
  | inl e ↦
      let (inside, same) = entry-enlarged fd m.datas many in
      let l = enlarged fd m.datas in
      let c = new_fd_ctx stat nonblock fd in
      let fits : ltb fd (length l) ≡ true = ground (arith, inside) in
      (
        record m { datas = set l fd (some c) },
        c,
        rw (e, get) (rw fits refl),
        λ j. entry-set l fd j (some c) inside ∙ (rw (same j) refl),
      )
]
