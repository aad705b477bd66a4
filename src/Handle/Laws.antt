-- ===== src/Handle/Laws.antt =====
-- The garbage flag reads as it was written, and the operations on it touch nothing else.
use gca.Base.{ℕ, ◌≡◌, refl, true, ◌==◌, if◌then◌else◌, arith}
use gca.Bits.Digits.{digit}
use gca.Bits.Masks.{read_mask-pow, digit-enable_mask}
use gca.Handle.{Handle, Heap, on_handle, is_marked_garbage, mark_garbage}

pub is_marked_garbage_lem : (h : Handle) → is_marked_garbage h ≡ (digit 1 h.flags == 1)
unfolding is_marked_garbage
is_marked_garbage_lem h = read_mask-pow h.flags 1

pub digit-mark_garbage :
    (j : ℕ) (h : Handle)
    → (digit j (mark_garbage h).flags == 1) ≡ (if 1 == j then true else digit j h.flags == 1)
unfolding mark_garbage
digit-mark_garbage j h = digit-enable_mask j h.flags 1

pub is_marked_garbage-mark_garbage : (h : Handle) → is_marked_garbage (mark_garbage h) ≡ true
is_marked_garbage-mark_garbage h = rw (is_marked_garbage_lem, digit-mark_garbage 1 h)

-- `MarkGarbage` writes the flags only.
pub mark_garbage_lem : (h : Handle) → mark_garbage h ≡ record h { flags = (mark_garbage h).flags }
unfolding mark_garbage
mark_garbage_lem h = refl

-- An accessor that `f` keeps is kept by an update of the heap by `f`.
pub on_handle-keeps {ℓ} :
    {B : Type ℓ} (p : Handle → B) (f : Handle → Handle) (s : Heap) (r x : ℕ)
    → ((h : Handle) → p (f h) ≡ p h)
    → p (on_handle s r f x) ≡ p (s x)
on_handle-keeps p f s r x keep = ground (arith, keep (s r))
