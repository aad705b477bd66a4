-- ===== src/Fields/References.antt =====
-- Lists of referencing objects as multisets: how often an object stands in one.
use gca.Base.{
  ℕ, zero, suc, ◌+◌, ◌<◌, ◌≡◌, ◌≢◌, refl, ap, sym, ◌∙◌, Bool, true, false, List, [], ◌∷◌, ◌++◌,
  length, set, ◌==◌, Bool-cases, inl, inr, arith,
}
use gca.Fields.{find_reference, back, pop_back, swap_pop}

abbrev pub bit : Bool → ℕ
bit true = 1
bit false = 0

-- The number of times `x` stands in the list.
unfoldable pub count : ℕ → List ℕ → ℕ
count x [] = 0
count x (y ∷ ys) = bit (y == x) + count x ys

pub count-append : (x y : ℕ) (xs : List ℕ) → count x (xs ++ y ∷ []) ≡ count x xs + bit (y == x)
unfolding count
count-append x y [] = omega arith
count-append x y (z ∷ zs) = omega (arith, count-append x y zs)

count-pop_back :
    (r x : ℕ) (xs : List ℕ) → count r (pop_back (x ∷ xs)) + bit (back x xs == r) ≡ count r (x ∷ xs)
unfolding count
count-pop_back r x [] = omega arith
count-pop_back r x (y ∷ ys) = omega (arith, count-pop_back r y ys)

abbrev at : List ℕ → ℕ → ℕ
at [] i = 0
at (x ∷ xs) zero = x
at (x ∷ xs) (suc i) = at xs i

pop_back-set :
    (x y : ℕ) (ys : List ℕ) (i v : ℕ)
    → pop_back (x ∷ set (y ∷ ys) i v) ≡ x ∷ pop_back (set (y ∷ ys) i v)
pop_back-set x y ys zero v = refl
pop_back-set x y ys (suc i) v = refl

-- Overwriting a position with the last element and dropping the last place.
count-set_pop :
    (r x : ℕ) (xs : List ℕ) (i : ℕ)
    → i < length (x ∷ xs)
    → count r (pop_back (set (x ∷ xs) i (back x xs))) + bit (at (x ∷ xs) i == r) ≡ count r (x ∷ xs)
unfolding count
count-set_pop r x [] zero h = omega arith
count-set_pop r x [] (suc i) h = absurd (omega arith)
count-set_pop r x (y ∷ ys) zero h = omega (arith, count-pop_back r y ys)
count-set_pop r x (y ∷ ys) (suc i) h =
    rw (pop_back-set x y ys i (back y ys))
      (omega (arith, count-set_pop r y ys i (omega (arith, h))))

at-find_reference :
    (xs : List ℕ) (x : ℕ)
    → find_reference xs x ≢ length xs
    → (find_reference xs x < length xs) × (at xs (find_reference xs x) ≡ x)
unfolding find_reference
at-find_reference [] x h = absurd (h refl)
at-find_reference (y ∷ ys) x h = elim (Bool-cases (y == x)) [
  | inl e ↦ rw e (omega arith, ground arith)
  | inr e ↦
      let (lt, found) = at-find_reference ys x (λ p. h (ground arith)) in
      rw e (omega (arith, lt), found)
]

-- Removing a referencing object that stands in the list removes it once and leaves the others.
pub count-swap_pop :
    (r x : ℕ) (xs : List ℕ)
    → find_reference xs x ≢ length xs
    → count r (swap_pop xs (find_reference xs x)) + bit (x == r) ≡ count r xs
unfolding swap_pop find_reference
count-swap_pop r x [] h = absurd (h refl)
count-swap_pop r x (y ∷ ys) h =
    let (lt, found) = at-find_reference (y ∷ ys) x h in
    ap
      (λ z.
        count r (pop_back (set (y ∷ ys) (find_reference (y ∷ ys) x) (back y ys))) + bit (z == r))
      (sym found)
    ∙ count-set_pop r y ys (find_reference (y ∷ ys) x) lt
