-- ===== src/Timer/Firing.antt =====
-- The loop of `listExpiredCb` that collects callbacks and puts recurring timers back.
use sylar.Common.{
  ℕ, ◌+◌, ◌%◌, ◌^◌, ◌≡◌, refl, sym, ap, ◌∙◌, arith, inl, inr, true, false, ◌&&◌, ◌||◌, Option, none,
  List, [], ◌∷◌, map, ◌==◌, if◌then◌else◌, Bool-cases,
}
use sylar.Timer.{Timer, Heap, update, set_insert, fire}
use sylar.Timer.Order.{
  Sorted, contains, set_insert-Sorted, contains-set_insert, Sorted-SameNext, update-SameNext,
  ==-refl,
}

abbrev pub Distinct : List ℕ → Type 0
Distinct [] = Unit
Distinct (x ∷ xs) = (contains xs x ≡ false) × Distinct xs

abbrev pub Apart : List ℕ → List ℕ → Type 0
Apart xs ys = (b : ℕ) → contains xs b ≡ true → contains ys b ≡ false

-- The timer after it fired.
abbrev pub rearmed : ℕ → Timer → Timer
rearmed now t =
    if t.recurring then record t { next = (now + t.ms) % 2 ^ 64 } else record t { cb = none }

-- What the last loop leaves.
pub record Fired (now : ℕ) (h : Heap) (expired timers : List ℕ)
    (r : List (Option ℕ) × Heap × List ℕ) : Type 0 where
  pub cbs : r.0 ≡ map (λ a. (h a).cb) expired
  pub sorted : Sorted r.1 r.2
  pub holds :
      (b : ℕ) → contains r.2 b ≡ (contains timers b || (contains expired b && (h b).recurring))
  pub changed : (b : ℕ) → r.1 b ≡ (if contains expired b then rearmed now (h b) else h b)

map-update :
    (h : Heap) (a : ℕ) (t : Timer) (l : List ℕ)
    → contains l a ≡ false
    → map (λ b. (update h a t b).cb) l ≡ map (λ b. (h b).cb) l
map-update h a t [] gone = refl
map-update h a t (y ∷ ys) gone =
    let other : (y == a) ≡ false = ground (arith, gone) in
    rw (other, map-update h a t ys (rw other at gone)) refl

module _ (now a : ℕ) (expired timers v : List ℕ) (h : Heap) (t : Timer)
    (gone : contains expired a ≡ false) (et : t ≡ rearmed now (h a))
    (er : t.recurring ≡ (h a).recurring)
    (ev : (b : ℕ) → contains v b ≡ (contains timers b || ((a == b) && (h a).recurring)))
    (r : List (Option ℕ) × Heap × List ℕ) (f : Fired now (update h a t) expired v r) where
  fire_cons_holds :
      (b : ℕ)
      → contains r.2 b ≡ (contains timers b || (contains (a ∷ expired) b && (h b).recurring))
  fire_cons_holds b = f.holds b ∙ elim (Bool-cases (b == a)) [
    | inl e ↦
        let same : b ≡ a = ground (arith, e) in
        rw (ev b, same, ==-refl a, gone, sym er) (ground arith)
    | inr e ↦ let other : (a == b) ≡ false = ground (arith, e) in rw (ev b, other, e) (ground arith)
  ]

  fire_cons_changed :
      (b : ℕ) → r.1 b ≡ (if contains (a ∷ expired) b then rearmed now (h b) else h b)
  fire_cons_changed b = f.changed b ∙ elim (Bool-cases (b == a)) [
    | inl e ↦ let same : b ≡ a = ground (arith, e) in rw (same, ==-refl a, gone) et
    | inr e ↦ let other : (a == b) ≡ false = ground (arith, e) in rw (other, e) refl
  ]

  fire_cons : Fired now h (a ∷ expired) timers ((h a).cb ∷ r.0, r.1, r.2)
  fire_cons = record {
    cbs = ap (λ cbs. (h a).cb ∷ cbs) (f.cbs ∙ map-update h a t expired gone);
    sorted = f.sorted;
    holds = fire_cons_holds;
    changed = fire_cons_changed;
  }

abbrev step : ℕ → List (Option ℕ) × Heap × List ℕ → Heap → List (Option ℕ) × Heap × List ℕ
step a r h = ((h a).cb ∷ r.0, r.1, r.2)

abbrev set_next : ℕ → Timer → Timer
set_next now t = record t { next = (now + t.ms) % 2 ^ 64 }

abbrev drop_cb : Timer → Timer
drop_cb t = record t { cb = none }

fire_recurring :
    (now a : ℕ) (expired : List ℕ) (h : Heap) (timers : List ℕ)
    → (h a).recurring ≡ true
    → fire now (a ∷ expired) h timers
      ≡ step a
          (fire now expired
            (update h a (set_next now (h a)))
            (set_insert (update h a (set_next now (h a))) a timers))
          h
unfolding fire
fire_recurring now a expired h timers e = rw e refl

fire_last_time :
    (now a : ℕ) (expired : List ℕ) (h : Heap) (timers : List ℕ)
    → (h a).recurring ≡ false
    → fire now (a ∷ expired) h timers
      ≡ step a (fire now expired (update h a (drop_cb (h a))) timers) h
unfolding fire
fire_last_time now a expired h timers e = rw e refl

pub fire-Fired :
    (now : ℕ) (expired : List ℕ) (h : Heap) (timers : List ℕ)
    → Distinct expired
    → Apart expired timers
    → Sorted h timers
    → Fired now h expired timers (fire now expired h timers)
fire-Fired now [] h timers d apart s =
    unfold fire in record { cbs = refl; sorted = s; holds = λ b. ground arith; changed = λ b. refl }
fire-Fired now (a ∷ expired) h timers (gone, d) apart s = elim (Bool-cases (h a).recurring) [
  | inl e ↦
      let u = update h a (set_next now (h a)) in
      let v = set_insert u a timers in
      rw (fire_recurring now a expired h timers e) (
        fire_cons now a expired timers v h (set_next now (h a)) gone (rw e refl) refl
          (λ b. contains-set_insert u a timers b ∙ (rw e (ground arith))) (fire now expired u v)
          (fire-Fired now expired u v d (apart_v u)
            (set_insert-Sorted u a timers (sorted_u (set_next now (h a))))))
  | inr e ↦
      let u = update h a (drop_cb (h a)) in
      rw (fire_last_time now a expired h timers e) (
        fire_cons now a expired timers timers h (drop_cb (h a)) gone (rw e refl) refl
          (λ b. rw e (ground arith)) (fire now expired u timers)
          (fire-Fired now expired u timers d apart' (sorted_u (drop_cb (h a)))))
]
  where
    apart' : Apart expired timers
    apart' b f = apart b (rw f (ground arith))

    sorted_u : (t : Timer) → Sorted (update h a t) timers
    sorted_u t =
        let outside = apart a (rw (==-refl a) refl) in
        Sorted-SameNext h (update h a t) timers (update-SameNext h a t timers outside) s

    apart_v : (u : Heap) → Apart expired (set_insert u a timers)
    apart_v u b f = contains-set_insert u a timers b ∙ elim (Bool-cases (a == b)) [
      | inl e ↦ let same : a ≡ b = ground (arith, e) in absurd (cc)
      | inr e ↦ rw (e, apart' b f) refl
    ]
