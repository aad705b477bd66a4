-- ===== src/Handles/Flaws.antt =====
-- What the copy assignment of `root_handle` and the move assignment of `field` do.
use gca.Base.{ℕ, ◌+◌, ◌-◌, ◌^◌, ◌<◌, ◌≡◌, ◌≢◌, refl, ap, fun_ext, Bool, false, ◌==◌, arith}
use gca.Base.Family.{update, total}
use gca.Roles.{Role, root, done, Answer, add_root, copy, copy_from, copy_unpinned, copy_pinned}
use gca.Roles.Counts.{Old, of_root, of_field, of_ro_pin, of_rw_pin}
use gca.World.{World, resume, change_handle}
use gca.Handles.{Call, copy_handle, construct_from, write}
use gca.Handles.RootHandle
use gca.Handles.Counts.{bit, roots}
use gca.Handles.Invariant.{IsCounted, held, total-bit}

pub copy_root-handle :
    (c : Call) (handle : ℕ) {src : Role} (w : World)
    → Old src
    → 0 < handle
    → copy_handle c handle src root w ≡ (change_handle handle (λ h. add_root h) w, done handle)
unfolding copy_handle copy copy_from copy_unpinned copy_pinned
copy_root-handle c handle w of_root pos = let e : (handle == 0) ≡ false = ground arith in rw e refl
copy_root-handle c handle w of_field pos = let e : (handle == 0) ≡ false = ground arith in rw e refl
copy_root-handle c handle w of_ro_pin pos =
    let e : (handle == 0) ≡ false = ground arith in rw e refl
copy_root-handle c handle w of_rw_pin pos =
    let e : (handle == 0) ≡ false = ground arith in rw e refl

-- Where the root count of the object that `this` points to is the number of variables that do,
-- assigning another variable's handle to it leaves it pointing to the same object, whose count is
-- one more than that number from then on; all variables stay as they were.
pub copy_assign-leaks :
    (c : Call) (this other k : ℕ) (live : ℕ → Bool) (w : World)
    → other ≢ this
    → 0 < w.field this
    → k < 2 ^ 64 - 1
    → IsCounted k live (w.field this) w
    → (w' : World) × (RootHandle.copy_assign c this other w ≡ (w', done tt))
      × ((v : ℕ) → w'.field v ≡ w.field v)
      × (roots w' (w.field this) ≡ total (bit (w.field this)) k (held live w'.field) + 1)
unfolding RootHandle.copy_assign construct_from
copy_assign-leaks c this other k live w apart pos room h =
    let w' : World = record (change_handle (w.field this) (λ h. add_root h) w) {
      field = update w.field this (w.field this);
    } in
    let e : (other == this) ≡ false = ground (arith, apart) in
    let same : (v : ℕ) → w'.field v ≡ w.field v = λ v. ground arith in
    let kept : total (bit (w.field this)) k (held live w'.field)
        ≡ total (bit (w.field this)) k (held live w.field) =
      ap (λ f. total (bit (w.field this)) k (held live f)) (fun_ext same) in
    (
      w',
      rw e (
          ap (λ (r : World × Answer ℕ). resume (write this) r.0 r.1)
            (copy_root-handle c (w.field this) w of_root pos)),
      same,
      ground (arith, kept, h, total-bit (w.field this) k (held live w.field)),
    )
