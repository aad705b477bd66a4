-- ===== src/Page/Laws.antt =====
-- What `TryAllocate` promises: an aligned span inside the page that meets no entry, and nothing
-- only where no such span exists.
use gca.Base.{
  ℕ, ◌+◌, ◌-◌, ◌*◌, ◌^◌, ◌≤◌, ◌<◌, ◌≡◌, refl, ◌⊎◌, inl, inr, true, false, Option, none, some, List,
  [], ◌∷◌, leb, leb→le, if◌then◌else◌, Bool-cases, All, arith,
}
use gca.Page.{
  u16, u64, page_size, Entry, entry, Span, is_empty, get_alignment_correction, allocate_at_end,
  allocate_from, span_or_empty, try_allocate,
}
use gca.Page.Alignment.{padding_least, padding_aligns}

abbrev pub IsAligned : ℕ → ℕ → Type 0
IsAligned alignment x = (q : ℕ) × (x ≡ q * alignment)

-- From `last` on, the entries follow one another and end inside the page.
abbrev pub IsLaid : (begin last : ℕ) → List Entry → Type 0
IsLaid begin last [] = last ≤ begin + page_size
IsLaid begin last (e ∷ es) = (last ≤ begin + e.offset) × IsLaid begin (begin + e.offset + e.size) es

abbrev pub IsPage : ℕ → List Entry → Type 0
IsPage begin es = (begin + page_size < 2 ^ 64) × IsLaid begin begin es

-- The bytes from `a` on, `size` of them, are none of the entry's.
abbrev pub Apart : (begin a size : ℕ) → Entry → Type 0
Apart begin a size e = (a + size ≤ begin + e.offset) ⊎ (begin + e.offset + e.size ≤ a)

pub last-le : (begin last : ℕ) (es : List Entry) → IsLaid begin last es → last ≤ begin + page_size
last-le begin last [] h = h
last-le begin last (e ∷ es) h = omega (arith, last-le begin (begin + e.offset + e.size) es h.1)

-- A request that `Allocate` sends to a page.
pub record IsRequest (size alignment : ℕ) : Type 0 where
  pub fits : size ≤ page_size
  pub positive : 0 < alignment
  pub small : alignment ≤ 2 ^ 62

abbrev pub IsFree : (begin last : ℕ) → List Entry → (size alignment a : ℕ) → Type 0
IsFree begin last es size alignment a =
    IsAligned alignment a
    × (last ≤ a)
    × (a + size ≤ begin + page_size)
    × All (Apart begin a size) es

module _ (begin size alignment : ℕ) (req : IsRequest size alignment)
    (room : begin + page_size < 2 ^ 64) where
  open req use {fits, positive, small}

  -- Everything from the end of the page's entries on lies behind the earlier ones.
  Apart-later :
      (a last : ℕ) (es : List Entry)
      → IsLaid begin last es
      → a + size ≤ last
      → All (Apart begin a size) es
  Apart-later a last [] h k = tt
  Apart-later a last (e ∷ es) h k =
      (inl (omega arith), Apart-later a (begin + e.offset + e.size) es h.1 (omega arith))

  abbrev padding : ℕ → ℕ
  padding last = get_alignment_correction last alignment

  -- An aligned address from `last` on lies behind the padding.
  least : (a last : ℕ) → IsAligned alignment a → last ≤ a → last + padding last ≤ a
  least a last (q, e) h = rw e (padding_least last alignment q positive small (omega arith))

  aligned : (last : ℕ) → IsAligned alignment (last + padding last)
  aligned last = let (q, e, lt) = padding_aligns last alignment positive small in (q, e)

  padding-lt : (last : ℕ) → padding last < alignment
  padding-lt last = (padding_aligns last alignment positive small).2

  -- Without wrapping: the end of the page, and one entry.
  pub allocate_at_end_lem :
      (last : ℕ)
      → begin ≤ last
      → last ≤ begin + page_size
      → allocate_at_end begin last size alignment ≡ (
          if leb (last + padding last + size) (begin + page_size)
          then (
            entry (last + padding last - begin) size ∷ [],
            some (record { address = last + padding last; size = size }),
          )
          else ([], none))
  unfolding allocate_at_end
  allocate_at_end_lem last h k =
      elim (Bool-cases (leb (last + padding last + size) (begin + page_size))) [
        | inl wide ↦ ground (arith, padding-lt last)
        | inr narrow ↦ ground (arith, padding-lt last)
      ]

  pub end_of_page :
      (last : ℕ)
      → allocate_from begin size alignment last [] ≡ allocate_at_end begin last size alignment
  unfolding allocate_from
  end_of_page last = refl

  pub allocate_from_lem :
      (last : ℕ) (e : Entry) (es : List Entry)
      → begin ≤ last
      → IsLaid begin last (e ∷ es)
      → allocate_from begin size alignment last (e ∷ es) ≡ (
          let rest = allocate_from begin size alignment (begin + e.offset + e.size) es in
          if leb (last + padding last + size) (begin + e.offset)
          then (
            entry (u16 (e.offset + e.size + padding last)) size ∷ e ∷ es,
            some (record { address = last + padding last; size = size }),
          )
          else (e ∷ rest.0, rest.1))
  unfolding allocate_from
  allocate_from_lem last e es k h =
      let end = last-le begin (begin + e.offset + e.size) es h.1 in
      let starts : u64 (begin + e.offset) ≡ begin + e.offset = omega arith in
      let ends : u64 (begin + e.offset + e.size) ≡ begin + e.offset + e.size = omega arith in
      rw starts (rw ends (ground (arith, padding-lt last)))

  abbrev pub Found : ℕ → List Entry → Option Span → Type 0
  Found last es none = (a : ℕ) → ¬ IsFree begin last es size alignment a
  Found last es (some s) = (s.size ≡ size) × IsFree begin last es size alignment s.address

  Found-end :
      (last : ℕ)
      → begin ≤ last
      → last ≤ begin + page_size
      → Found last [] (allocate_at_end begin last size alignment).1
  Found-end last h k =
      rw (allocate_at_end_lem last h k)
        (elim (Bool-cases (leb (last + padding last + size) (begin + page_size))) [
          | inl wide ↦ rw wide (refl, (aligned last, omega arith, leb→le _ _ wide, tt))
          | inr narrow ↦ rw narrow (λ a free. ground (arith, least a last free.0 free.1))
        ])

  -- What was found behind an entry is apart from it.
  Found-skip :
      (last : ℕ) (e : Entry) (es : List Entry)
      → begin ≤ last
      → IsLaid begin last (e ∷ es)
      → leb (last + padding last + size) (begin + e.offset) ≡ false
      → (o : Option Span) → Found (begin + e.offset + e.size) es o
      → Found last (e ∷ es) o
  Found-skip last e es k h narrow none absent = λ a free. elim free.3.0 [
    | inl before ↦ ground (arith, least a last free.0 free.1)
    | inr after ↦ absent a (free.0, after, free.2, free.3.1)
  ]
  Found-skip last e es k h narrow (some s) (same, (al, from, to, rest)) =
      (same, (al, omega arith, to, (inr from, rest)))

  pub Found-from :
      (last : ℕ) (es : List Entry)
      → begin ≤ last
      → IsLaid begin last es
      → Found last es (allocate_from begin size alignment last es).1
  Found-from last [] k h = rw (end_of_page last) (Found-end last k h)
  Found-from last (e ∷ es) k h =
      let end = last-le begin (begin + e.offset + e.size) es h.1 in
      rw (allocate_from_lem last e es k h)
        (elim (Bool-cases (leb (last + padding last + size) (begin + e.offset))) [
          | inl wide ↦ rw wide (
            refl,
            (
              aligned last,
              omega arith,
              omega (arith, leb→le _ _ wide),
              (
                inl (leb→le _ _ wide),
                Apart-later (last + padding last) (begin + e.offset + e.size) es h.1
                    (omega (arith, leb→le _ _ wide)),
              ),
            ),
          )
          | inr narrow ↦ rw narrow (
              Found-skip last e es k h narrow _
                (Found-from (begin + e.offset + e.size) es (omega arith) h.1))
        ])

-- On a page whose entries are in order, `TryAllocate` of a non-empty request either gives an
-- aligned span of the wanted size that lies inside the page and meets no entry, or gives the empty
-- span, and then there is no such span.
pub try_allocate_lem :
    (begin : ℕ) (es : List Entry) (size alignment : ℕ)
    → IsPage begin es
    → IsRequest size alignment
    → 0 < size
    → (((try_allocate begin es size alignment).1.size ≡ size)
        × IsFree begin begin es size alignment (try_allocate begin es size alignment).1.address)
      ⊎ ((is_empty (try_allocate begin es size alignment).1 ≡ true)
          × ((a : ℕ) → ¬ IsFree begin begin es size alignment a))
unfolding try_allocate
try_allocate_lem begin es size alignment page req pos =
    by_span (allocate_from begin size alignment begin es).1
      (Found-from begin size alignment req page.0 begin es (omega arith) page.1)
  where
    by_span :
        (o : Option Span)
        → Found begin size alignment req page.0 begin es o
        → (((span_or_empty o).size ≡ size)
            × IsFree begin begin es size alignment (span_or_empty o).address)
          ⊎ ((is_empty (span_or_empty o) ≡ true)
              × ((a : ℕ) → ¬ IsFree begin begin es size alignment a))
    by_span none absent = inr (refl, absent)
    by_span (some s) found = inl found
