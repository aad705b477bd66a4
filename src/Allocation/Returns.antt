-- ===== src/Allocation/Returns.antt =====
-- What `Allocate` returns, and when `TryAllocateOnNewPage` reaches the code it takes for unreachable.
use gca.Base.{
  ℕ, ◌*◌, ◌≤◌, ◌<◌, ◌≡◌, ◌≢◌, refl, ap, sym, true, Option, none, some, ltb, ◌==◌, Bool-cases, inl,
  inr, arith,
}
use gca.Base.Result.{Result, ok, throw}
use gca.Types.{ObjectType}
use gca.Page.{Span, page_size, u64, is_empty}
use gca.Roles.{Answer, done, raises, waits}
use gca.World.{World, modify, ◌>>=◌, ◌>>◌, on_error, finally}
use gca.Registration.{register}
use gca.Destruction.{Env}
use gca.Collect.{collect_large_objects_fast, collect_large_objects_slow}
use gca.Allocation.{
  Memory, try_on_page, place_object, release_page, allocate_on_pages, allocate_large_object,
  forget_large, push_large, assign_large, place_large_object, allocate_large,
  try_allocate_on_new_page, or_new_page, new_page, span_on_new_page, with_large_memory, allocate,
}
use gca.World.Lands.{
  Lands, done-Lands, bind-Lands, then-Lands, recover-Lands, release_after-Lands, if-Lands,
}
use gca.Allocation.Pages.{
  Allotted, Fits, try_on_page-Fits, register-Allotted, place_object-Allotted, OptionAllotted,
  Allotted-release, allocate_on_pages-Allotted,
}

large_memory-fits :
    (size : ℕ) (v : World) (r : Result ℕ)
    → Lands (λ v s. s.size ≡ size) (with_large_memory v size r)
large_memory-fits size v (throw e) s h = cc
large_memory-fits size v (ok a) s h = elim (Bool-cases (size == 0)) [
  | inl e ↦ cc (rw e at h)
  | inr e ↦ ap (λ (x : Answer Span). size_of x) (sym (rw e at h))
]
  where
    size_of : Answer Span → ℕ
    size_of (done s) = s.size
    size_of (raises e) = 0
    size_of waits = 0

module _ (mem : Memory) (env : Env) (ty : ObjectType) (size : ℕ) where
  -- An object on a new page, where what is taken for unreachable returns nothing
  new_page-Allotted :
      ((v : World) → Lands (Allotted size) (mem.unreachable v))
      → (w : World) → Lands (Allotted size) (try_allocate_on_new_page mem size ty w)
  unfolding try_allocate_on_new_page
  new_page-Allotted never w =
      then-Lands (Allotted size) (new_page mem true)
        (λ p.
          finally (release_page p) (try_on_page p size ty.alignment >>= span_on_new_page mem p ty))
        w
        λ p v.
          let body = try_on_page p size ty.alignment >>= span_on_new_page mem p ty in
          release_after-Lands (Allotted size) (release_page p) (body v).0 (body v).1
            (λ n h. Allotted-release size p (body v).0 n h)
            (bind-Lands (Fits size) (Allotted size) (try_on_page p size ty.alignment)
              (span_on_new_page mem p ty) v (try_on_page-Fits size p ty.alignment v)
              λ s u fits.
                if-Lands (Allotted size) (is_empty s) (mem.unreachable u) (place_object p s ty u)
                  (λ e. never u) (λ e. place_object-Allotted size p s ty u e (fits e)))

  or_new_page-Allotted :
      ((v : World) → Lands (Allotted size) (try_allocate_on_new_page mem size ty v))
      → (o : Option ℕ) (w : World) → OptionAllotted size w o
      → Lands (Allotted size) (or_new_page mem env size ty o w)
  or_new_page-Allotted last (some n) w h = done-Lands (Allotted size) w n (h n refl)
  or_new_page-Allotted last none w h =
      then-Lands (Allotted size) (collect_large_objects_slow env)
        (λ _. try_allocate_on_new_page mem size ty) w λ a v. last v

  Allotted-assign : (w : World) (n : ℕ) → Allotted size w n → Allotted size (assign_large n w) n
  Allotted-assign w n h = record {
    before = h.before;
    given = h.given;
    was_free = h.was_free;
    is_taken = h.is_taken;
    some_size = h.some_size;
    some_handle = h.some_handle;
    named = h.named;
    header = h.header;
  }

  place_large_object-Allotted :
      (s : Span) (w : World)
      → 0 < size
      → s.size ≡ size
      → Lands (Allotted size) (place_large_object s ty w)
  unfolding place_large_object
  place_large_object-Allotted s w some_size fits =
      let body = modify push_large >> on_error (forget_large s) (register s ty) in
      bind-Lands (Allotted size) (Allotted size) body (λ n v. (assign_large n v, done n)) w
        (then-Lands (Allotted size) (modify push_large)
          (λ _. on_error (forget_large s) (register s ty)) w
          λ a v.
            recover-Lands (Allotted size) (forget_large s) (register s ty v).0 (register s ty v).1
              (register-Allotted size s ty v some_size fits))
        λ n v h. done-Lands (Allotted size) (assign_large n v) n (Allotted-assign v n h)

  allocate_large-Allotted :
      (w : World) → 0 < size → Lands (Allotted size) (allocate_large mem env size ty w)
  unfolding allocate_large allocate_large_object
  allocate_large-Allotted w some_size =
      let first = collect_large_objects_fast env >> allocate_large_object mem size ty in
      bind-Lands (λ v s. s.size ≡ size) (Allotted size) first (λ s. place_large_object s ty) w
        (then-Lands (λ v s. s.size ≡ size) (collect_large_objects_fast env)
          (λ _. allocate_large_object mem size ty) w
          λ a v. large_memory-fits size v (mem.large_memory v size ty.alignment))
        λ s v fits. place_large_object-Allotted s v some_size fits

module _ (mem : Memory) (env : Env) (ty : ObjectType) (count : ℕ) where
  pub allocate-Lands :
      (u64 (ty.size * count) ≤ page_size
        → (v : World)
        → Lands
            (Allotted (u64 (ty.size * count)))
            (try_allocate_on_new_page mem (u64 (ty.size * count)) ty v))
      → (w : World) → Lands (Allotted (u64 (ty.size * count))) (allocate mem env ty count w)
  unfolding allocate
  allocate-Lands last w =
      let size = u64 (ty.size * count) in
      if-Lands (Allotted size) (ltb page_size size) (allocate_large mem env size ty w) _
        (λ e. allocate_large-Allotted mem env ty size w (ground (arith, e)))
        λ e.
          bind-Lands (OptionAllotted size) (Allotted size) (allocate_on_pages env size ty w.pages)
            (or_new_page mem env size ty) w (allocate_on_pages-Allotted size env ty w.pages w)
            (or_new_page-Allotted mem env ty size (last (ground (arith, e))))

  -- Of no elements nothing is allocated: unless the code that is taken for unreachable returns a
  -- handle, `Allocate` returns none for a count of 0, nor for one whose size in bytes is a multiple
  -- of 2 ^ 64.
  pub allocate_nothing :
      u64 (ty.size * count) ≡ 0
      → ((v : World) (n : ℕ) → (mem.unreachable v).1 ≢ done n)
      → (w : World) (n : ℕ) → (allocate mem env ty count w).1 ≢ done n
  allocate_nothing nothing never w n h =
      let size = u64 (ty.size * count) in
      let r =
        allocate-Lands (λ _. new_page-Allotted mem env ty size (λ v m e. absurd (never v m e))) w n
          h in
      omega (arith, nothing, r.some_size)
