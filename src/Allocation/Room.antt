-- ===== src/Allocation/Room.antt =====
-- A new page has room for every size up to a page and every alignment that divides a page's.
use gca.Base.{ℕ, ◌+◌, ◌*◌, ◌^◌, ◌≤◌, ◌<◌, ◌≡◌, refl, true, some, [], ◌∷◌, leb, arith}
use gca.Page.{
  Span, entry, page_size, u16, u64, sub64, get_alignment_correction, try_allocate, allocate_from,
  allocate_at_end,
}
use gca.Page.Alignment.{padding_least, padding_aligns}
use gca.Allocation.{page_alignment}

-- The alignment of the type is a divisor of the alignment of pages.
abbrev pub Divides : ℕ → ℕ → Type 0
Divides k n = (m : ℕ) × (m * k ≡ n)

abbrev pub page_span : ℕ → ℕ → Span
page_span begin size = record { address = begin; size = size }

no_correction :
    (al : ℕ) (begin : ℕ)
    → Divides al page_alignment
    → get_alignment_correction begin page_alignment ≡ 0
    → get_alignment_correction begin al ≡ 0
no_correction al begin (m, d) h =
    let (q, on, below) = padding_aligns begin page_alignment (omega arith) (omega arith) in
    let some : 0 < al = grind (arith, d) in
    let small : al ≤ page_alignment = grind (arith, d) in
    let multiple : begin ≡ (q * m) * al = grind (arith, d, on, h) in
    let least =
      padding_least begin al (q * m) some (omega (arith, small)) (omega (arith, multiple)) in
    omega (arith, least, multiple)

at_begin :
    (size begin al : ℕ)
    → begin < 2 ^ 64
    → get_alignment_correction begin al ≡ 0
    → size ≤ page_size
    → allocate_at_end begin begin size al ≡ (entry 0 size ∷ [], some (page_span begin size))
unfolding allocate_at_end
at_begin size begin al bound c fits =
    let offset : u16 (sub64 begin begin + 0) ≡ 0 = omega arith in
    let small : u16 size ≡ size = omega (arith, fits) in
    let at : u64 (begin + 0) ≡ begin = omega (arith, bound) in
    let wide : leb (u64 (size + 0)) (sub64 (u64 (begin + page_size)) begin) ≡ true =
      ground (arith, bound, fits) in
    rw (c, offset, small, at, wide) refl

pub room :
    (size begin al : ℕ)
    → Divides al page_alignment
    → begin < 2 ^ 64
    → get_alignment_correction begin page_alignment ≡ 0
    → size ≤ page_size
    → try_allocate begin [] size al ≡ (entry 0 size ∷ [], page_span begin size)
unfolding try_allocate allocate_from
room size begin al divides bound aligned fits =
    rw (at_begin size begin al bound (no_correction al begin divides aligned) fits) refl
