-- ===== src/Page/Alignment.antt =====
-- `page::GetAlignmentCorrection`: the least padding that aligns an address.
use gca.Base.{ℕ, ◌+◌, ◌*◌, ◌/◌, ◌%◌, ◌^◌, ◌≤◌, ◌<◌, ◌≡◌, ◌==◌, arith, inl, inr, Bool-cases}
use gca.Page.{get_alignment_correction}

-- Any multiple of the alignment from the address on lies behind the padding.
pub padding_least :
    (ptr al m : ℕ)
    → 0 < al
    → al ≤ 2 ^ 62
    → ptr ≤ m * al
    → ptr + get_alignment_correction ptr al ≤ m * al
unfolding get_alignment_correction
padding_least ptr al m pos small h = grind arith

pub padding_aligns :
    (ptr al : ℕ)
    → 0 < al
    → al ≤ 2 ^ 62
    → (q : ℕ) × (ptr + get_alignment_correction ptr al ≡ q * al)
      × (get_alignment_correction ptr al < al)
unfolding get_alignment_correction
padding_aligns ptr al pos small = elim (Bool-cases (ptr % al == 0)) [
  | inl e ↦ (ptr / al, grind arith, grind arith)
  | inr e ↦ (ptr / al + 1, grind arith, grind arith)
]
