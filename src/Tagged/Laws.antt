-- ===== src/Tagged/Laws.antt =====
-- What a word gives back of the pointer and of the tag that were put into it.
use mathlib.Core.Bool.{Bool-set}
use mathlib.Core.Equiv.{IsEquiv, iso_to_equiv}
use mathlib.Core.HLevel.{Σ_prop_path}
use native.Mathlib.Bridge.{le_prop}
use gca.Base.{ℕ, ◌-◌, ◌^◌, ◌<◌, ◌≡◌, refl, Bool, true, ◌&&◌, ◌||◌, ltb, leb, arith}
use gca.Tagged.{pack, get_data, get, set, is_null}

-- The addresses of a processor with 48-bit virtual addresses
abbrev pub is_canonical : ℕ → Bool
is_canonical p = ltb p (2 ^ 47) || leb (2 ^ 64 - 2 ^ 47) p && ltb p (2 ^ 64)

abbrev pub Address : Type 0
Address = (p : ℕ) × (is_canonical p ≡ true)

abbrev pub Tag : Type 0
Tag = (d : ℕ) × d < 2 ^ 16

abbrev pub Word : Type 0
Word = (w : ℕ) × w < 2 ^ 64

pub get-pack : (p tag : ℕ) → is_canonical p ≡ true → get (pack p tag) ≡ p
unfolding get pack
get-pack p tag h = ground (arith, h)

pub get_data-pack : (p tag : ℕ) → tag < 2 ^ 16 → get_data (pack p tag) ≡ tag
unfolding get_data pack
get_data-pack p tag h = omega arith

pub pack-get : (word : ℕ) → word < 2 ^ 64 → pack (get word) (get_data word) ≡ word
unfolding get get_data pack
pack-get word h = ground arith

get_data-bound : (word : ℕ) → get_data word < 2 ^ 16
unfolding get_data
get_data-bound word = omega arith

pub get-canonical : (word : ℕ) → is_canonical (get word) ≡ true
unfolding get
get-canonical word = ground arith

abbrev pub to_parts : Word → Address × Tag
unfolding get_data
to_parts (w, h) = ((get w, get-canonical w), (get_data w, omega arith))

abbrev from_parts : Address × Tag → Word
unfolding pack
from_parts (p, tag) = (pack p.0 tag.0, omega arith)

Address_ext : {p q : Address} → p.0 ≡ q.0 → p ≡ q
Address_ext e = Σ_prop_path (λ p. Bool-set (is_canonical p) true) e

Word_ext : {w v : Word} → w.0 ≡ v.0 → w ≡ v
Word_ext e = Σ_prop_path (λ w. le_prop) e

Tag_ext : {d e : Tag} → d.0 ≡ e.0 → d ≡ e
Tag_ext e = Σ_prop_path (λ d. le_prop) e

-- Tagged words are the same as pairs of a canonical address and a 16-bit tag: what `Get` and
-- `GetData` give of a 64-bit word is an equivalence of types.
pub to_parts-IsEquiv : IsEquiv to_parts
unfolding get_data pack
to_parts-IsEquiv =
    (iso_to_equiv {A = Word} {B = Address × Tag} record {
      fun = to_parts;
      inv = from_parts;
      rinv = λ b. λ i. (
        Address_ext {p = (to_parts (from_parts b)).0} {q = b.0} (get-pack b.0.0 b.1.0 b.0.1) i,
        Tag_ext {d = (to_parts (from_parts b)).1} {e = b.1} (get_data-pack b.0.0 b.1.0 b.1.1) i,
      );
      linv = λ w. Word_ext (pack-get w.0 w.1);
    }).1

-- Setting a canonical address leaves the tag of a 64-bit word and is read back, setting the
-- address that is there already changes nothing, and setting the null pointer makes the word null
-- whatever its tag.
pub get-set :
    (word p : ℕ)
    → word < 2 ^ 64
    → is_canonical p ≡ true
    → (get (set word p) ≡ p)
      × (get_data (set word p) ≡ get_data word)
      × (set word (get word) ≡ word)
      × (is_null (set word 0) ≡ true)
unfolding set is_null
get-set word p b c =
    let bound : get_data word < 2 ^ 16 = get_data-bound word in
    (
      get-pack p (get_data word) c,
      get_data-pack p (get_data word) bound,
      pack-get word b,
      ground (arith, get-pack 0 (get_data word) refl),
    )
