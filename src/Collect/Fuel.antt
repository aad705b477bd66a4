-- ===== src/Collect/Fuel.antt =====
-- The loop over the entries of a page ends: a turn that destroys an object makes the lookup forget an
-- address, for good, and any other turn goes on to the next entry.
use gca.Base.{
  ℕ, zero, suc, ◌+◌, ◌-◌, ◌*◌, ◌≤◌, ◌<◌, ◌≡◌, refl, sym, subst, Bool, true, false, Option, none,
  some, List, [], ◌∷◌, length, get_elem?, ◌==◌, if◌then◌else◌, arith,
}
use gca.Page.{Entry}
use gca.Roles.{Answer, done, raises, waits}
use gca.World.{World, M, resume}
use gca.World.Spares.{IsPlaced, place, weigh, Spares, IsPlaced-Spares}
use gca.Destruction.{Env}
use gca.Destruction.Spares.{OthersSpare}
use gca.Collect.{collect_entry, entry_turn, collect_entries}
use gca.Collect.Spares.{collect_entry-Spares}
use gca.Collect.Forgets.{collect_entry-forgets}

module _ (env : Env) (calm : OthersSpare env.others) (id p : ℕ) where
  -- One for an entry whose address has a handle
  abbrev known : World → Entry → ℕ
  known w e = if w.lookup (place (w.page p) e) == 0 then 0 else 1

  left : World → ℕ
  left w = weigh (known w) (w.page p).entries

  weigh-le :
      (f g : Entry → ℕ) (es : List Entry) → ((e : Entry) → f e ≤ g e) → weigh f es ≤ weigh g es
  unfolding weigh
  weigh-le f g [] h = omega arith
  weigh-le f g (e ∷ es) h = omega (arith, h e, weigh-le f g es h)

  weigh-lt :
      (f g : Entry → ℕ) (es : List Entry) (i : ℕ) (e : Entry)
      → ((x : Entry) → f x ≤ g x)
      → get_elem? es i ≡ some e
      → f e < g e
      → weigh f es < weigh g es
  unfolding weigh
  weigh-lt f g [] i e h at less = cc
  weigh-lt f g (x ∷ es) zero e h at less =
      let same : x ≡ e = cc in
      let here : f x < g x = subst (λ y. f y < g y) (sym same) less in
      omega (arith, here, weigh-le f g es h)
  weigh-lt f g (x ∷ es) (suc i) e h at less = omega (arith, h x, weigh-lt f g es i e h at less)

  weigh-length : (es : List Entry) → weigh (λ _. 1) es ≡ length es
  unfolding weigh
  weigh-length [] = refl
  weigh-length (e ∷ es) = omega (arith, weigh-length es)

  known-le : {w v : World} → Spares w v → (e : Entry) → known v e ≤ known w e
  known-le {w} {v} s e = ground (arith, s.begins p, s.forgets (place (w.page p) e))

  length-le : {w v : World} → Spares w v → length (v.page p).entries ≤ length (w.page p).entries
  length-le {w} {v} s =
      omega (
        arith,
        s.thins (λ _. 1) p,
        weigh-length (v.page p).entries,
        weigh-length (w.page p).entries,
      )

  left-le : {w v : World} → Spares w v → left v ≤ left w
  unfolding left
  left-le {w} {v} s =
      omega
        (arith, s.thins (known v) p, weigh-le (known v) (known w) (w.page p).entries (known-le s))

  left-lt :
      {w v : World} (i : ℕ) (e : Entry)
      → Spares w v
      → get_elem? (w.page p).entries i ≡ some e
      → 0 < w.lookup (place (w.page p) e)
      → v.lookup (place (w.page p) e) ≡ 0
      → left v < left w
  unfolding left
  left-lt {w} {v} i e s at was gone = omega (
    arith,
    s.thins (known v) p,
    weigh-lt (known v) (known w) (w.page p).entries i e (known-le s) at
        (ground (arith, s.begins p, was, gone)),
  )

pub get_elem?-lt :
    {A : Type 0} (xs : List A) (i : ℕ) {x : A} → get_elem? xs i ≡ some x → i < length xs
get_elem?-lt [] i h = cc
get_elem?-lt (y ∷ xs) zero h = omega arith
get_elem?-lt (y ∷ xs) (suc i) h = omega (arith, get_elem?-lt xs i h)

pub resume-ext :
    {A B : Type 0} (f g : A → M B) (w : World) (answer : Answer A)
    → ((a : A) → answer ≡ done a → f a w ≡ g a w)
    → resume f w answer ≡ resume g w answer
resume-ext f g w (done a) h = h a refl
resume-ext f g w (raises e) h = refl
resume-ext f g w waits h = refl

module _ (env : Env) (calm : OthersSpare env.others) (id p : ℕ) where
  -- Turns that may be left
  abbrev turns : World → ℕ → ℕ
  turns w i = left env calm id p w + (length (w.page p).entries - i)

  fewer :
      (e : Entry) (destroyed : Bool) (i : ℕ) (w : World)
      → get_elem? (w.page p).entries i ≡ some e
      → IsPlaced w
      → (collect_entry env id p e w).1 ≡ done destroyed
      → turns (collect_entry env id p e w).0 (if destroyed then i else i + 1) < turns w i
  fewer e true i w at placed h =
      let v = (collect_entry env id p e w).0 in
      let s = collect_entry-Spares env calm id p e w placed in
      let (was, gone) = collect_entry-forgets env calm id p e w placed true h refl in
      omega (arith, left-lt env calm id p i e s at was gone, length-le env calm id p s)
  fewer e false i w at placed h =
      let s = collect_entry-Spares env calm id p e w placed in
      omega (
        arith,
        left-le env calm id p s,
        length-le env calm id p s,
        get_elem?-lt (w.page p).entries i at,
      )

  entry_turn-fuel :
      (f g : ℕ → M (Unit {0})) (i : ℕ) (o : Option Entry) (w : World)
      → get_elem? (w.page p).entries i ≡ o
      → IsPlaced w
      → ((j : ℕ) (v : World) → IsPlaced v → turns v j < turns w i → f j v ≡ g j v)
      → entry_turn env id p i f o w ≡ entry_turn env id p i g o w
  entry_turn-fuel f g i none w at placed same = refl
  entry_turn-fuel f g i (some e) w at placed same =
      let v = (collect_entry env id p e w).0 in
      let s = collect_entry-Spares env calm id p e w placed in
      resume-ext (λ destroyed. f (if destroyed then i else i + 1))
        (λ destroyed. g (if destroyed then i else i + 1)) v (collect_entry env id p e w).1
        λ destroyed h.
          same (if destroyed then i else i + 1) v (IsPlaced-Spares s placed)
            (fewer e destroyed i w at placed h)

  collect_entries-same :
      (x y : M (Unit {0})) (f g i : ℕ) (w : World)
      → IsPlaced w
      → turns w i < f
      → turns w i < g
      → collect_entries env id p x f i w ≡ collect_entries env id p y g i w
  unfolding collect_entries
  collect_entries-same x y zero g i w placed h k = absurd (omega (arith, h))
  collect_entries-same x y (suc f) zero i w placed h k = absurd (omega (arith, k))
  collect_entries-same x y (suc f) (suc g) i w placed h k =
      entry_turn-fuel (collect_entries env id p x f) (collect_entries env id p y g) i
        (get_elem? (w.page p).entries i) w refl placed
        λ j v placed_v less.
          collect_entries-same x y f g j v placed_v (omega (arith, h, less))
            (omega (arith, k, less))

  left-double : (w : World) → left env calm id p w ≤ length (w.page p).entries
  unfolding left
  left-double w = omega (
    arith,
    weigh-le env calm id p (known env calm id p w) (λ _. 1) (w.page p).entries (λ e. ground arith),
    weigh-length env calm id p (w.page p).entries,
  )

  -- The loop of a collection over the entries of a page ends: where handles lie where the lookup has
  -- them, and other threads spare what has roots while the collection yields, a turn that would need
  -- more fuel is never reached with more than twice as many turns as there are entries. The loop's
  -- result, state and answer, does not depend on what is done where the fuel runs out, `x` or `y`,
  -- nor on the number of turns given beyond that.
  pub collect_entries-ends :
      (x y : M (Unit {0})) (f g : ℕ) (w : World)
      → IsPlaced w
      → 2 * length (w.page p).entries < f
      → 2 * length (w.page p).entries < g
      → collect_entries env id p x f 0 w ≡ collect_entries env id p y g 0 w
  collect_entries-ends x y f g w placed h k =
      let most = left-double w in
      collect_entries-same x y f g 0 w placed (omega (arith, h, most)) (omega (arith, k, most))
