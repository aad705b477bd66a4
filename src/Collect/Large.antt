-- ===== src/Collect/Large.antt =====
-- The loop over the large objects ends: each turn takes an object off the list or goes on to the next.
use gca.Base.{
  ℕ, zero, suc, ◌+◌, ◌-◌, ◌<◌, ◌≡◌, refl, ap, sym, ◌∙◌, subst, ◌⊎◌, Bool, true, false, Option, none,
  some, List, [], ◌∷◌, length, length-set, get_elem?, set, In, here, there, inl, inr, if◌then◌else◌,
  arith,
}
use gca.Handle.Body.{Body}
use gca.Fields.{swap_pop, back, pop_back}
use gca.World.{World, M, pure, ◌>>◌, modify}
use gca.World.Spares.{Spares}
use gca.Destruction.{Env, destroy_large_object}
use gca.Destruction.Spares.{OthersSpare}
use gca.Destruction.Removal.{destroy_large_object-Spares}
use gca.Collect.{collect_object, drop_large, large_turn, collect_large}
use gca.Collect.Spares.{collect_object-Spares}
use gca.Collect.Fuel.{resume-ext, get_elem?-lt}

In-set : (n : ℕ) (xs : List ℕ) (i v : ℕ) → In n (set xs i v) → (n ≡ v) ⊎ In n xs
In-set n [] i v m = elim m [ ]
In-set n (x ∷ xs) zero v here = inl refl
In-set n (x ∷ xs) zero v (there m) = inr (there m)
In-set n (x ∷ xs) (suc i) v here = inr here
In-set n (x ∷ xs) (suc i) v (there m) = elim (In-set n xs i v m) [
  | inl e ↦ inl e
  | inr k ↦ inr (there k)
]

In-pop_back : (n : ℕ) (xs : List ℕ) → In n (pop_back xs) → In n xs
In-pop_back n [] m = m
In-pop_back n (x ∷ []) m = elim m [ ]
In-pop_back n (x ∷ y ∷ ys) here = here
In-pop_back n (x ∷ y ∷ ys) (there m) = there (In-pop_back n (y ∷ ys) m)

In-back : (x : ℕ) (xs : List ℕ) → In (back x xs) (x ∷ xs)
In-back x [] = here
In-back x (y ∷ ys) = there (In-back y ys)

In-swap_pop : (n : ℕ) (xs : List ℕ) (i : ℕ) → In n (swap_pop xs i) → In n xs
unfolding swap_pop
In-swap_pop n [] i m = m
In-swap_pop n (x ∷ xs) i m =
    elim (In-set n (x ∷ xs) i (back x xs) (In-pop_back n (set (x ∷ xs) i (back x xs)) m)) [
      | inl e ↦ subst (λ k. In k (x ∷ xs)) (sym e) (In-back x xs)
      | inr k ↦ k
    ]

length-pop_back : (x : ℕ) (xs : List ℕ) → length (pop_back (x ∷ xs)) ≡ length xs
length-pop_back x [] = refl
length-pop_back x (y ∷ ys) = omega (arith, length-pop_back y ys)

length-pop_back_set : (xs : List ℕ) → length (pop_back xs) ≡ length xs - 1
length-pop_back_set [] = refl
length-pop_back_set (x ∷ xs) = omega (arith, length-pop_back x xs)

length-swap_pop : (xs : List ℕ) (i : ℕ) → length (swap_pop xs i) ≡ length xs - 1
unfolding swap_pop
length-swap_pop [] i = refl
length-swap_pop (x ∷ xs) i =
    length-pop_back_set (set (x ∷ xs) i (back x xs))
    ∙ ap (λ n. n - 1) (length-set (x ∷ xs) i (back x xs))

In-get_elem? : (xs : List ℕ) (i : ℕ) {n : ℕ} → get_elem? xs i ≡ some n → In n xs
In-get_elem? [] i e = cc
In-get_elem? (x ∷ xs) zero {n} e = let same : x ≡ n = cc in subst (λ k. In k (x ∷ xs)) same here
In-get_elem? (x ∷ xs) (suc i) e = there (In-get_elem? xs i e)

-- The lookup gives a large object's handle for its address, or none.
abbrev pub IsOwn : World → ℕ → Type 0
IsOwn w n = (w.lookup (w.heap n).address ≡ n) ⊎ (w.lookup (w.heap n).address ≡ 0)

abbrev pub LargeOwn : World → Type 0
LargeOwn w = (n : ℕ) → In n w.large_objects → IsOwn w n

LargeOwn-Spares : {w v : World} → Spares w v → LargeOwn w → LargeOwn v
LargeOwn-Spares {w} {v} s own n m =
    let at : (v.heap n).address ≡ (w.heap n).address =
      ap (λ (b : Body). b.address) (s.bodies.same n) in
    let before = own n (subst (In n) s.large m) in
    rw at (ground (arith, before, s.forgets (w.heap n).address))

LargeOwn-drop : (i : ℕ) (w : World) → LargeOwn w → LargeOwn (drop_large i w)
unfolding drop_large
LargeOwn-drop i w own n m = own n (In-swap_pop n w.large_objects i m)

after :
    (f g : ℕ → M (Unit {0})) (i : ℕ) (v : World) (destroyed : Bool)
    → f i (drop_large i v) ≡ g i (drop_large i v)
    → f (i + 1) v ≡ g (i + 1) v
    → ((if destroyed then modify (drop_large i) else pure tt) >> f (if destroyed then i else i + 1))
        v
      ≡ ((if destroyed then modify (drop_large i) else pure tt)
            >> g (if destroyed then i else i + 1))
          v
after f g i v true p q = p
after f g i v false p q = q

module _ (env : Env) (calm : OthersSpare env.others) (id : ℕ) where
  large_turn-same :
      (f g : ℕ → M (Unit {0})) (i : ℕ) (o : Option ℕ) (w : World)
      → get_elem? w.large_objects i ≡ o
      → LargeOwn w
      → ((j : ℕ) (v : World)
          → LargeOwn v
          → length v.large_objects - j < length w.large_objects - i
          → f j v ≡ g j v)
      → large_turn env id i f o w ≡ large_turn env id i g o w
  unfolding drop_large
  large_turn-same f g i none w at own same = refl
  large_turn-same f g i (some n) w at own same =
      let turn = collect_object env (destroy_large_object env n) id n in
      let s =
        collect_object-Spares env id n (destroy_large_object env n)
          (destroy_large_object-Spares env calm n) w (own n (In-get_elem? w.large_objects i at)) in
      let v = (turn w).0 in
      let below = get_elem?-lt w.large_objects i at in
      let own_v = LargeOwn-Spares s own in
      let shorter : length (swap_pop v.large_objects i) ≡ length w.large_objects - 1 =
        length-swap_pop v.large_objects i ∙ ap (λ xs. length xs - 1) s.large in
      let kept : length v.large_objects ≡ length w.large_objects = ap length s.large in
      resume-ext
        (λ destroyed.
          (if destroyed then modify (drop_large i) else pure tt)
          >> f (if destroyed then i else i + 1))
        (λ destroyed.
          (if destroyed then modify (drop_large i) else pure tt)
          >> g (if destroyed then i else i + 1))
        v (turn w).1
        λ destroyed e.
          after f g i v destroyed
            (same i (drop_large i v) (LargeOwn-drop i v own_v) (omega (arith, shorter, below)))
            (same (i + 1) v own_v (omega (arith, kept, below)))

  collect_large-same :
      (x y : M (Unit {0})) (f g i : ℕ) (w : World)
      → LargeOwn w
      → length w.large_objects - i < f
      → length w.large_objects - i < g
      → collect_large env id x f i w ≡ collect_large env id y g i w
  unfolding collect_large
  collect_large-same x y zero g i w own h k = absurd (omega (arith, h))
  collect_large-same x y (suc f) zero i w own h k = absurd (omega (arith, k))
  collect_large-same x y (suc f) (suc g) i w own h k =
      large_turn-same (collect_large env id x f) (collect_large env id y g) i
        (get_elem? w.large_objects i) w refl own
        λ j v own_v less.
          collect_large-same x y f g j v own_v (omega (arith, h, less)) (omega (arith, k, less))

  -- Where the lookup gives a large object's own handle for its address or none, and other threads
  -- spare what has roots and leave the list of large objects alone, the loop never needs more turns
  -- than there are large objects and one to see the end: its result does not depend on what is done
  -- where the turns run out, `x` or `y`.
  pub collect_large-ends :
      (x y : M (Unit {0})) (f g : ℕ) (w : World)
      → LargeOwn w
      → length w.large_objects < f
      → length w.large_objects < g
      → collect_large env id x f 0 w ≡ collect_large env id y g 0 w
  collect_large-ends x y f g w own h k =
      collect_large-same x y f g 0 w own (omega (arith, h)) (omega (arith, k))
