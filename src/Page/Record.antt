-- ===== src/Page/Record.antt =====
-- Which entry `TryAllocate` writes down for the span that it gives, and what `RemoveAllocation`
-- finds of it.
use gca.Base.{
  ℕ, ◌+◌, ◌-◌, ◌^◌, ◌≤◌, ◌<◌, ◌≡◌, refl, sym, ◌∙◌, ap, ◌⊎◌, inl, inr, false, Option, none, some,
  List, [], ◌∷◌, ◌++◌, leb, leb→le, Bool-cases, arith,
}
use gca.Page.{
  u16, sub64, page_size, Entry, entry, Span, is_empty, get_alignment_correction, allocate_from,
  span_or_empty, try_allocate, erase_entry, remove_allocation,
}
use gca.Page.Laws.{
  IsLaid, IsPage, IsRequest, last-le, try_allocate_lem, allocate_at_end_lem, allocate_from_lem,
  end_of_page,
}

-- The span lies in the gap before the entry `next`, but the new entry says that it begins at or
-- behind the end of `next`.
pub record Misplaced (begin size : ℕ) (es es' : List Entry) (s : Span) : Type 0 where
  pub before : List Entry
  pub next : Entry
  pub after : List Entry
  pub offset : ℕ
  pub entries : es ≡ before ++ next ∷ after
  pub entries' : es' ≡ before ++ entry offset size ∷ next ∷ after
  pub in_gap : s.address + size ≤ begin + next.offset
  pub too_far : next.offset + next.size ≤ offset

abbrev Recorded : (begin size : ℕ) → (last : ℕ) → List Entry → List Entry → Option Span → Type 0
Recorded begin size last es es' none = es' ≡ es
Recorded begin size last es es' (some s) =
    (s.size ≡ size)
    × (((es' ≡ es ++ entry (s.address - begin) size ∷ []) × IsLaid begin last es')
        ⊎ Misplaced begin size es es' s)

module _ (begin size alignment : ℕ) (req : IsRequest size alignment)
    (room : begin + page_size < 2 ^ 64) where
  open req use {fits, positive, small}

  Recorded-cons :
      (last : ℕ) (e : Entry) (es es' : List Entry) (o : Option Span)
      → last ≤ begin + e.offset
      → Recorded begin size (begin + e.offset + e.size) es es' o
      → Recorded begin size last (e ∷ es) (e ∷ es') o
  Recorded-cons last e es es' none h r = ap (λ l. e ∷ l) r
  Recorded-cons last e es es' (some s) h (same, inl (p, laid)) =
      (same, inl (ap (λ l. e ∷ l) p, (h, laid)))
  Recorded-cons last e es es' (some s) h (same, inr m) = (
    same,
    inr (record {
      before = e ∷ m.before;
      next = m.next;
      after = m.after;
      offset = m.offset;
      entries = ap (λ l. e ∷ l) m.entries;
      entries' = ap (λ l. e ∷ l) m.entries';
      in_gap = m.in_gap;
      too_far = m.too_far;
    }),
  )

  recorded :
      (last : ℕ) (es : List Entry)
      → begin ≤ last
      → IsLaid begin last es
      → Recorded begin size last es
          (allocate_from begin size alignment last es).0
          (allocate_from begin size alignment last es).1
  recorded last [] k h = rw (end_of_page begin size alignment req room last) (
      rw (allocate_at_end_lem begin size alignment req room last k h)
        (elim (Bool-cases
          (leb (last + get_alignment_correction last alignment + size) (begin + page_size))) [
            | inl wide ↦ rw wide (refl, inl (refl, (omega arith, omega (arith, leb→le _ _ wide))))
            | inr narrow ↦ rw narrow refl
          ]))
  recorded last (e ∷ es) k h =
      let end = last-le begin (begin + e.offset + e.size) es h.1 in
      rw (allocate_from_lem begin size alignment req room last e es k h)
        (elim (Bool-cases
          (leb (last + get_alignment_correction last alignment + size) (begin + e.offset))) [
            | inl wide ↦ rw wide (
              refl,
              inr (record {
                before = [];
                next = e;
                after = es;
                offset = u16 (e.offset + e.size + get_alignment_correction last alignment);
                entries = refl;
                entries' = refl;
                in_gap = leb→le _ _ wide;
                too_far = omega (arith, leb→le _ _ wide);
              }),
            )
            | inr narrow ↦ rw narrow (
                Recorded-cons last e es _ _ h.0
                  (recorded (begin + e.offset + e.size) es (omega arith) h.1))
          ])

-- A non-empty span that `TryAllocate` gives either lies behind all entries, and then the new entry is
-- the last one, says where the span is, and leaves the page in order; or it lies in a gap between
-- entries, and then the new entry claims an offset at or behind the end of the entry after the
-- gap, so not the place of the span.
pub try_allocate-recorded :
    (begin : ℕ) (es : List Entry) (size alignment : ℕ)
    → IsPage begin es
    → IsRequest size alignment
    → is_empty (try_allocate begin es size alignment).1 ≡ false
    → (let (es', s) = try_allocate begin es size alignment in
        ((es' ≡ es ++ entry (s.address - begin) size ∷ []) × IsPage begin es')
        ⊎ Misplaced begin size es es' s)
unfolding try_allocate
try_allocate-recorded begin es size alignment page req some_span =
    by_span (allocate_from begin size alignment begin es).1 some_span
      (recorded begin size alignment req page.0 begin es (omega arith) page.1)
  where
    by_span :
        (o : Option Span)
        → is_empty (span_or_empty o) ≡ false
        → Recorded begin size begin es (allocate_from begin size alignment begin es).0 o
        → (((allocate_from begin size alignment begin es).0
              ≡ es ++ entry ((span_or_empty o).address - begin) size ∷ [])
            × IsPage begin (allocate_from begin size alignment begin es).0)
          ⊎ Misplaced begin size es
              (allocate_from begin size alignment begin es).0
              (span_or_empty o)
    by_span none e r = cc
    by_span (some s) e (same, inl (p, laid)) = inl (p, (page.0, laid))
    by_span (some s) e (same, inr m) = inr m

last_entry-ge :
    (begin last : ℕ) (es : List Entry) (a : Entry)
    → IsLaid begin last (es ++ a ∷ [])
    → (last ≤ begin + a.offset) × (begin + a.offset + a.size ≤ begin + page_size)
last_entry-ge begin last [] a h = h
last_entry-ge begin last (e ∷ es) a h =
    omega (arith, last_entry-ge begin (begin + e.offset + e.size) es a h.1)

-- What `RemoveAllocation` looks for.
entry_lem :
    (begin size : ℕ) (es : List Entry) {alignment : ℕ} (s : Span)
    → IsPage begin es
    → IsRequest size alignment
    → 0 < size
    → s.size ≡ size
    → begin ≤ s.address
    → s.address + size ≤ begin + page_size
    → (es' : List Entry)
    → remove_allocation begin es' s ≡ erase_entry (entry (s.address - begin) size) es'
unfolding remove_allocation
entry_lem begin size es s page req pos same from to es' =
    let o : u16 (sub64 s.address begin) ≡ s.address - begin = omega arith in
    let z : u16 s.size ≡ size = omega (arith, req.fits) in rw o (rw z refl)

-- An entry behind all others is the one that goes.
erase_entry-last :
    (begin last : ℕ) (es : List Entry) (a : Entry)
    → 0 < a.size
    → IsLaid begin last (es ++ a ∷ [])
    → erase_entry a (es ++ a ∷ []) ≡ es
unfolding erase_entry
erase_entry-last begin last [] a pos h = ground arith
erase_entry-last begin last (e ∷ es) a pos h =
    let rest = erase_entry-last begin (begin + e.offset + e.size) es a pos h.1 in
    ground (arith, rest, last_entry-ge begin (begin + e.offset + e.size) es a h.1)

-- Giving a non-empty span back whose entry is the last one of a page in order undoes `TryAllocate`.
pub remove_allocation-try_allocate :
    (begin : ℕ) (es : List Entry) (size alignment : ℕ)
    → IsPage begin es
    → IsRequest size alignment
    → 0 < size
    → is_empty (try_allocate begin es size alignment).1 ≡ false
    → (try_allocate begin es size alignment).0
      ≡ es ++ entry ((try_allocate begin es size alignment).1.address - begin) size ∷ []
    → IsPage begin (try_allocate begin es size alignment).0
    → remove_allocation begin
        (try_allocate begin es size alignment).0
        (try_allocate begin es size alignment).1
      ≡ es
remove_allocation-try_allocate begin es size alignment page req pos some_span appended page' =
    removed (try_allocate begin es size alignment).1 (try_allocate begin es size alignment).0
      (elim (try_allocate_lem begin es size alignment page req pos) [
        | inl found ↦ (found.0, found.1.1, found.1.2)
        | inr empty ↦ cc (sym some_span ∙ empty.0)
      ])
      appended page'.1
  where
    removed :
        (s : Span) (es' : List Entry)
        → (s.size ≡ size) × (begin ≤ s.address) × (s.address + size ≤ begin + page_size)
        → es' ≡ es ++ entry (s.address - begin) size ∷ []
        → IsLaid begin begin es'
        → remove_allocation begin es' s ≡ es
    removed s es' (same, from, to) e laid =
        rw (entry_lem begin size es s page req pos same from to)
          (rw e (erase_entry-last begin begin es _ pos (rw e at laid)))
