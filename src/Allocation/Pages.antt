-- ===== src/Allocation/Pages.antt =====
-- Allocating an object on one of the pages: what the handle leads to, where one is returned.
use gca.Base.{
  ℕ, ◌+◌, ◌-◌, ◌/◌, ◌%◌, ◌<◌, ◌≡◌, refl, ap, sym, ◌∙◌, subst, Bool, true, false, Option, none, some,
  List, [], ◌∷◌, if◌then◌else◌, arith,
}
use gca.Base.Result.{ok}
use gca.Slots.{Nodes, get_next_writable}
use gca.Types.{ObjectType}
use gca.Page.{
  Entry, Span, u64, is_empty, span_or_empty, allocate_from, try_allocate, allocate_at_end,
}
use gca.Mutex.{tries_left}
use gca.Roles.{done}
use gca.World.{World, M, pure, ◌>>=◌, ◌>>◌, change_page, finally}
use gca.Registration.{register_type, register_object, register}
use gca.Registration.Laws.{
  New, place_is_free, Registered, register_object-given, register_object-Registered,
}
use gca.Destruction.{Env}
use gca.Collect.{collect_on_page}
use gca.Allocation.{
  page_acquire_attempts, try_on_page, or_after, defragment, find_span, give_back, place_object,
  found_span, release_page, allocate_on_page, or_next, allocate_on_pages, with_allocation_lock,
}
use gca.World.Lands.{
  Lands, done-Lands, bind-Lands, then-Lands, recover-Lands, release_after-Lands, if-Lands,
}

-- The handle leads to an object of the given size that was just registered: it has one root, no
-- references and no value yet, the lookup gives the handle for its address, and the container of
-- handles is as `GetNextUninitialized` leaves it where it gives the handle's place, which was free
-- in the container before and is taken now.
pub record Allotted (size : ℕ) (w : World) (n : ℕ) : Type 0 where
  pub before : Nodes
  pub given : get_next_writable before ≡ ok (w.handles, (n - 1) / 64, (n - 1) % 64)
  pub was_free : place_is_free before n ≡ ok true
  pub is_taken : place_is_free w.handles n ≡ ok false
  pub some_size : 0 < size
  pub some_handle : 0 < n
  pub named : w.lookup (w.heap n).address ≡ n
  pub header : New (w.heap n) (record { address = (w.heap n).address; size = size })

-- An allocation is as long as was asked for.
abbrev pub Fits : ℕ → World → Span → Type 0
Fits size w s = is_empty s ≡ false → s.size ≡ size

Registered-Allotted :
    (w w' : World) (s : Span) (n size : ℕ)
    → 0 < size
    → s.size ≡ size
    → get_next_writable w.handles ≡ ok (w'.handles, (n - 1) / 64, (n - 1) % 64)
    → Registered w w' s n
    → Allotted size w' n
Registered-Allotted w w' s n size some_size fits given r = record {
  before = w.handles;
  given = given;
  was_free = r.was_free;
  is_taken = r.is_taken;
  some_size = some_size;
  some_handle = r.some_handle;
  named = rw r.header.at r.named;
  header = record {
    at = refl;
    size = r.header.size ∙ fits;
    roots = r.header.roots;
    alone = r.header.alone;
    idle = r.header.idle;
    raw = r.header.raw;
  };
}

module _ (size : ℕ) where
  abbrev IsSized : Option Span → Type 0
  IsSized o = (s : Span) → o ≡ some s → s.size ≡ size

  IsSized-some : (a : ℕ) → IsSized (some (record { address = a; size = size }))
  IsSized-some a s e = ap (λ o. (span_or_empty o).size) (sym e)

  IsSized-none : IsSized none
  IsSized-none s e = cc

  IsSized-if :
      (b : Bool) (x y : List Entry × Option Span)
      → IsSized x.1
      → IsSized y.1
      → IsSized (if b then x else y).1
  IsSized-if true x y p q = p
  IsSized-if false x y p q = q

  IsSized-span :
      (o : Option Span)
      → IsSized o
      → is_empty (span_or_empty o) ≡ false
      → (span_or_empty o).size ≡ size
  IsSized-span none h e = cc
  IsSized-span (some s) h e = h s refl

  allocate_from-IsSized :
      (begin alignment last : ℕ) (es : List Entry)
      → IsSized (allocate_from begin size alignment last es).1
  unfolding allocate_from allocate_at_end
  allocate_from-IsSized begin alignment last [] = IsSized-if _ _ _ (IsSized-some _) IsSized-none
  allocate_from-IsSized begin alignment last (e ∷ es) =
      IsSized-if _ _ _ (IsSized-some _)
        (allocate_from-IsSized begin alignment (u64 (u64 (begin + e.offset) + e.size)) es)

  pub try_on_page-Fits :
      (p alignment : ℕ) (w : World) → Lands (Fits size) (try_on_page p size alignment w)
  unfolding try_on_page try_allocate
  try_on_page-Fits p alignment w =
      let q = w.page p in
      done-Lands (Fits size) (try_on_page p size alignment w).0 _ (
        IsSized-span (allocate_from q.begin size alignment q.begin q.entries).1
          (allocate_from-IsSized q.begin alignment q.begin q.entries))

  or_after-Fits :
      (step : M (Unit {0})) (again : M Span)
      → ((v : World) → Lands (Fits size) (again v))
      → (s : Span) (w : World) → Fits size w s
      → Lands (Fits size) (or_after step again s w)
  or_after-Fits step again tries s w fits =
      if-Lands (Fits size) (is_empty s) ((step >> again) w) (w, done s)
        (λ e. then-Lands (Fits size) step (λ _. again) w (λ a v. tries v))
        (λ e. done-Lands (Fits size) w s fits)

  find_span-Fits :
      (env : Env) (p alignment : ℕ) (w : World)
      → Lands (Fits size) (find_span env p size alignment w)
  unfolding find_span
  find_span-Fits env p alignment w =
      let tries = try_on_page-Fits p alignment in
      let again = try_on_page p size alignment in
      bind-Lands (Fits size) (Fits size) (again >>= or_after (collect_on_page env p) again)
        (or_after (defragment env p) again) w
        (bind-Lands (Fits size) (Fits size) again (or_after (collect_on_page env p) again) w
          (tries w) (or_after-Fits (collect_on_page env p) again tries))
        (or_after-Fits (defragment env p) again tries)

  pub register-Allotted :
      (s : Span) (ty : ObjectType) (w : World)
      → 0 < size
      → s.size ≡ size
      → Lands (Allotted size) (register s ty w)
  unfolding register
  register-Allotted s ty w some_size fits =
      then-Lands (Allotted size) (register_type ty) (register_object s) w λ i v n h.
        Registered-Allotted v (register_object s i v).0 s n size some_size fits
          (register_object-given s i v n h) (register_object-Registered s i v n h).1

  pub place_object-Allotted :
      (p : ℕ) (s : Span) (ty : ObjectType) (w : World)
      → is_empty s ≡ false
      → s.size ≡ size
      → Lands (Allotted size) (place_object p s ty w)
  unfolding place_object
  place_object-Allotted p s ty w some_span fits =
      recover-Lands (Allotted size) (give_back p s) (register s ty w).0 (register s ty w).1
        (register-Allotted s ty w (ground (arith, some_span, fits)) fits)

  -- A handle, where there is one
  abbrev pub OptionAllotted : World → Option ℕ → Type 0
  OptionAllotted w o = (n : ℕ) → o ≡ some n → Allotted size w n

  OptionAllotted-some : (w : World) (n : ℕ) → Allotted size w n → OptionAllotted w (some n)
  OptionAllotted-some w n h m e = let same : n ≡ m = cc in subst (Allotted size w) same h

  OptionAllotted-none : (w : World) → OptionAllotted w none
  OptionAllotted-none w m e = cc

  found_span-Allotted :
      (p : ℕ) (ty : ObjectType) (s : Span) (w : World)
      → Fits size w s
      → Lands OptionAllotted (found_span p ty s w)
  found_span-Allotted p ty s w fits =
      if-Lands OptionAllotted (is_empty s) (w, done none) _
        (λ e. done-Lands OptionAllotted w none (OptionAllotted-none w))
        λ e.
          bind-Lands (Allotted size) OptionAllotted (place_object p s ty) (λ n. pure (some n)) w
            (place_object-Allotted p s ty w e (fits e))
            λ n v h. done-Lands OptionAllotted v (some n) (OptionAllotted-some v n h)

  -- The locks of pages are no part of it.
  pub Allotted-release :
      (p : ℕ) (w : World) (n : ℕ) → Allotted size w n → Allotted size (release_page p w) n
  Allotted-release p w n h = record {
    before = h.before;
    given = h.given;
    was_free = h.was_free;
    is_taken = h.is_taken;
    some_size = h.some_size;
    some_handle = h.some_handle;
    named = h.named;
    header = h.header;
  }

  allocate_on_page-Allotted :
      (env : Env) (p : ℕ) (ty : ObjectType) (w : World)
      → Lands OptionAllotted (allocate_on_page env p size ty w)
  unfolding allocate_on_page
  allocate_on_page-Allotted env p ty w =
      let (m, acquired) = tries_left page_acquire_attempts (λ _ m. m) (w.page p).allocation_lock in
      let body = find_span env p size ty.alignment >>= found_span p ty in
      let v = change_page p (with_allocation_lock m) w in
      if-Lands OptionAllotted acquired (finally (release_page p) body v) (w, done none)
        (λ e.
          release_after-Lands OptionAllotted (release_page p) (body v).0 (body v).1
            (λ o h n x. Allotted-release p (body v).0 n (h n x))
            (bind-Lands (Fits size) OptionAllotted (find_span env p size ty.alignment)
              (found_span p ty) v (find_span-Fits env p ty.alignment v) (found_span-Allotted p ty)))
        (λ e. done-Lands OptionAllotted w none (OptionAllotted-none w))

  or_next-Allotted :
      (rest : M (Option ℕ))
      → ((v : World) → Lands OptionAllotted (rest v))
      → (o : Option ℕ) (w : World) → OptionAllotted w o
      → Lands OptionAllotted (or_next rest o w)
  or_next-Allotted rest next (some n) w h = done-Lands OptionAllotted w (some n) h
  or_next-Allotted rest next none w h = next w

  pub allocate_on_pages-Allotted :
      (env : Env) (ty : ObjectType) (ps : List ℕ) (w : World)
      → Lands OptionAllotted (allocate_on_pages env size ty ps w)
  unfolding allocate_on_pages
  allocate_on_pages-Allotted env ty [] w = done-Lands OptionAllotted w none (OptionAllotted-none w)
  allocate_on_pages-Allotted env ty (p ∷ ps) w =
      bind-Lands OptionAllotted OptionAllotted (allocate_on_page env p size ty)
        (or_next (allocate_on_pages env size ty ps)) w (allocate_on_page-Allotted env p ty w)
        (or_next-Allotted (allocate_on_pages env size ty ps) (allocate_on_pages-Allotted env ty ps))
