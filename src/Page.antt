-- ===== src/Page.antt =====
-- `page` of include/gca/gc-internal.h and its two methods in gc.cpp: the list of the allocations on
-- a page of 4096 bytes, ordered by offset. Addresses and sizes are 64-bit words, the fields of an
-- entry are 16-bit words (`smallest_unsigned_numeric_type_needed_for_t<4096>`).
-- The test `i > max_value` in `TryAllocate` is left out: a vector has no such index.
pub mod Alignment
pub mod Laws
pub mod Record
mod Examples
use gca.Base.{
  ℕ, ◌+◌, ◌-◌, ◌%◌, ◌^◌, Bool, true, false, ◌&&◌, Option, none, some, List, [], ◌∷◌, leb, ◌==◌,
  if◌then◌else◌,
}

abbrev pub u16 : ℕ → ℕ
u16 n = n % 2 ^ 16

abbrev pub u64 : ℕ → ℕ
u64 n = n % 2 ^ 64

-- `a - b` on 64-bit words
abbrev pub sub64 : ℕ → ℕ → ℕ
sub64 a b = (a + 2 ^ 64 - b) % 2 ^ 64

abbrev pub page_size : ℕ
page_size = 4096

-- `page::allocation`
pub record Entry : Type 0 where
  pub offset : ℕ
  pub size : ℕ

abbrev pub entry : ℕ → ℕ → Entry
entry offset size = record { offset = offset; size = size }

-- `allocation::Equals`
abbrev pub equals : Entry → Entry → Bool
equals a b = (a.offset == b.offset) && (a.size == b.size)

-- `page_allocation`, a span of bytes
pub record Span : Type 0 where
  pub address : ℕ
  pub size : ℕ

-- `page_allocation{}`
abbrev pub no_span : Span
no_span = record { address = 0; size = 0 }

abbrev pub is_empty : Span → Bool
is_empty s = s.size == 0

unfoldable pub get_alignment_correction : ℕ → ℕ → ℕ
get_alignment_correction ptr alignment =
    let correction = ptr % alignment in if correction == 0 then 0 else sub64 alignment correction

-- The end of the page's memory: no gap before an entry was wide enough.
unfoldable pub allocate_at_end : (begin last size alignment : ℕ) → List Entry × Option Span
allocate_at_end begin last size alignment =
    let padding = get_alignment_correction last alignment in
    let gap = sub64 (u64 (begin + page_size)) last in
    if leb (u64 (size + padding)) gap
    then (
      entry (u16 (sub64 last begin + padding)) (u16 size) ∷ [],
      some (record { address = u64 (last + padding); size = size }),
    )
    else ([], none)

-- The loop over the entries; `last` is `lastAllocationEnd`. `none` is `page_allocation{}`.
unfoldable pub allocate_from :
    (begin size alignment last : ℕ) → List Entry → List Entry × Option Span
unfolding allocate_at_end get_alignment_correction
allocate_from begin size alignment last [] = allocate_at_end begin last size alignment
allocate_from begin size alignment last (e ∷ es) =
    let allocation_begin = u64 (begin + e.offset) in
    let gap = sub64 allocation_begin last in
    let padding = get_alignment_correction last alignment in
    let rest = allocate_from begin size alignment (u64 (allocation_begin + e.size)) es in
    if leb (u64 (size + padding)) gap
    then (
      entry (u16 (e.offset + e.size + padding)) (u16 size) ∷ e ∷ es,
      some (record { address = u64 (last + padding); size = size }),
    )
    else (e ∷ rest.0, rest.1)

abbrev pub span_or_empty : Option Span → Span
span_or_empty none = no_span
span_or_empty (some s) = s

-- `page::TryAllocate` on the page whose memory begins at `begin`: the entries afterwards, and the
-- span.
unfoldable pub try_allocate : (begin : ℕ) → List Entry → (size alignment : ℕ) → List Entry × Span
unfolding allocate_from
try_allocate begin es size alignment =
    let r = allocate_from begin size alignment begin es in (r.0, span_or_empty r.1)

-- `std::ranges::find` and `erase`: the first equal entry goes.
unfoldable pub erase_entry : Entry → List Entry → List Entry
erase_entry a [] = []
erase_entry a (e ∷ es) = if equals e a then es else e ∷ erase_entry a es

-- `page::RemoveAllocation`
unfoldable pub remove_allocation : (begin : ℕ) → List Entry → Span → List Entry
unfolding erase_entry
remove_allocation begin es s = erase_entry (entry (u16 (sub64 s.address begin)) (u16 s.size)) es
