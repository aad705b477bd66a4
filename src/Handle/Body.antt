-- ===== src/Handle/Body.antt =====
-- The part of a handle that searches, assignments and locks leave alone.
use gca.Base.{ℕ, ◌≡◌, refl, ◌∙◌}
use gca.Handle.{Handle, Heap, on_handle}
use gca.Handle.Laws.{on_handle-keeps}

pub record Body : Type 0 where
  pub address : ℕ
  pub size : ℕ
  pub roots : ℕ
  pub object_type : ℕ

abbrev pub body : Handle → Body
body h = record {
  address = h.address;
  size = h.size;
  roots = h.root_handle_count;
  object_type = h.object_type;
}

pub record SameBodies (s s' : Heap) : Type 0 where
  pub same : (x : ℕ) → body (s' x) ≡ body (s x)

pub SameBodies-refl : (s : Heap) → SameBodies s s
SameBodies-refl s = record { same = λ x. refl }

pub SameBodies-trans : {s m s' : Heap} → SameBodies s m → SameBodies m s' → SameBodies s s'
SameBodies-trans p q = record { same = λ x. q.same x ∙ p.same x }

pub on_handle-SameBodies :
    (f : Handle → Handle) (s : Heap) (n : ℕ)
    → ((h : Handle) → body (f h) ≡ body h)
    → SameBodies s (on_handle s n f)
on_handle-SameBodies f s n keep = record { same = λ x. on_handle-keeps body f s n x keep }
