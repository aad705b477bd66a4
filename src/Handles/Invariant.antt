-- ===== src/Handles/Invariant.antt =====
-- The root count of an object against the number of variables that hold it as a root handle, a pin
-- or a field outside all objects: what constructing a handle from another, ending one, assigning null
-- to a root handle, moving one, and assigning a field outside all objects leave of their equality.
use gca.Base.{
  ℕ, zero, suc, ◌+◌, ◌-◌, ◌^◌, ◌<◌, ◌≤◌, ◌≡◌, refl, ap, Bool, true, false, ◌==◌, if◌then◌else◌,
  arith,
}
use gca.Base.Family.{update, total, total-ext, total-update, total-ge}
use gca.Roles.{Role, root, done}
use gca.Roles.Counts.{Rooted, Old, as_root}
use gca.World.{World, ◌>>=◌}
use gca.World.Lands.{Lands, done-Lands, bind-Lands, if-Lands}
use gca.Handles.{Call, write, construct_from, destroy_unless_null, copy_handle}
use gca.Handles.RootHandle
use gca.Handles.Field
use gca.Handles.Field.{Scene}
use gca.Handles.Counts.{
  bit, roots, Gains, Loses, copy_handle-Lands, construct_from-Lands, destroy_unless_null-Lands,
}

-- What the live variables hold.
abbrev pub held : (live : ℕ → Bool) → (field : ℕ → ℕ) → ℕ → ℕ
held live field v = if live v then field v else 0

-- `live` tells which variables below `k` are handles that count; every one that points to the
-- object `n` is counted by it.
abbrev pub IsCounted : (k : ℕ) → (live : ℕ → Bool) → (n : ℕ) → World → Type 0
IsCounted k live n w = roots w n ≡ total (bit n) k (held live w.field)

pub total-bit : (n k : ℕ) (g : ℕ → ℕ) → total (bit n) k g ≤ k
unfolding total
total-bit n zero g = omega arith
total-bit n (suc k) g = ground (arith, total-bit n k g)

module _ (n : ℕ) (pos : 0 < n) (k : ℕ) (room : k < 2 ^ 64 - 1) where
  -- One variable changes, or begins or ends to be live.
  pub counted_change :
      (live live' : ℕ → Bool) (f f' : ℕ → ℕ) (this x : ℕ) (b : Bool)
      → this < k
      → ((v : ℕ) → live' v ≡ update live this b v)
      → ((v : ℕ) → f' v ≡ update f this x v)
      → total (bit n) k (held live' f') + bit n (held live f this)
        ≡ total (bit n) k (held live f) + bit n (if b then x else 0)
  counted_change live live' f f' this x b lt l g =
      let e : total (bit n) k (held live' f')
          ≡ total (bit n) k (update (held live f) this (if b then x else 0)) =
        total-ext (bit n) k (held live' f') (update (held live f) this (if b then x else 0))
          (λ v. ground (arith, l v, g v)) in
      omega (arith, e, total-update (bit n) k (held live f) this (if b then x else 0) lt)

  count-room : (live : ℕ → Bool) (w : World) → IsCounted k live n w → roots w n + 1 < 2 ^ 64
  count-room live w h = omega (arith, h, total-bit n k (held live w.field))

  -- A variable that is not live becomes a handle by a copy of another's handle.
  pub construct_from-IsCounted :
      (c : Call) (live : ℕ → Bool) (this other : ℕ) {src dst : Role} (w : World)
      → this < k
      → live this ≡ false
      → Old src
      → Rooted dst
      → IsCounted k live n w
      → Lands
          (λ w' u. IsCounted k (update live this true) n w')
          (construct_from c this other src dst w)
  construct_from-IsCounted c live this other w lt l s d h e q =
      let r = construct_from-Lands n pos c this other w s d (count-room live w h) e q in
      ground (
        arith,
        h,
        l,
        r.1,
        counted_change live (update live this true) w.field
            (construct_from c this other _ _ w).0.field this (w.field other) true lt (λ v. refl)
            (λ v i. r.0 i v),
      )

  bit-held :
      (live : ℕ → Bool) (this : ℕ) (w : World)
      → this < k
      → live this ≡ true
      → IsCounted k live n w
      → bit n (w.field this) ≤ roots w n
  bit-held live this w lt l h = ground (arith, l, h, total-ge (bit n) k (held live w.field) this lt)

  pub destruct-IsCounted :
      (c : Call) (live : ℕ → Bool) (this : ℕ) {role : Role} (w : World)
      → this < k
      → live this ≡ true
      → Rooted role
      → IsCounted k live n w
      → Lands
          (λ w' u. IsCounted k (update live this false) n w')
          (destroy_unless_null c (w.field this) role w)
  destruct-IsCounted c live this {role} w lt l r h e q =
      let d =
        destroy_unless_null-Lands n pos c (w.field this) w r (bit-held live this w lt l h)
          (omega (arith, count-room live w h)) e q in
      ground (
        arith,
        h,
        l,
        d.1,
        counted_change live (update live this false) w.field
            (destroy_unless_null c (w.field this) role w).0.field this (w.field this) false lt
            (λ v. refl)
            (λ v.
              let same : (destroy_unless_null c (w.field this) role w).0.field v ≡ w.field v =
                λ i. d.0 i v in
              ground (arith, same)),
      )

  pub assign_null-IsCounted :
      (c : Call) (live : ℕ → Bool) (this : ℕ) (w : World)
      → this < k
      → live this ≡ true
      → IsCounted k live n w
      → Lands (λ w' u. IsCounted k live n w') (RootHandle.assign_null c this w)
  unfolding RootHandle.assign_null
  assign_null-IsCounted c live this w lt l h =
      bind-Lands (Loses n (w.field this) w) (λ w' u. IsCounted k live n w')
        (destroy_unless_null c (w.field this) root) (λ u. write this 0) w
        (destroy_unless_null-Lands n pos c (w.field this) w as_root (bit-held live this w lt l h)
          (omega (arith, count-room live w h)))
        (λ u v d.
          done-Lands (λ w' u. IsCounted k live n w') (record v { field = update v.field this 0 }) tt
            (ground (
              arith,
              h,
              l,
              pos,
              d.1,
              counted_change live live w.field (update v.field this 0) this 0 true lt
                  (λ x. ground (arith, l))
                  (λ x. let same : v.field x ≡ w.field x = λ i. d.0 i x in ground (arith, same)),
            )))

  pub move_construct-IsCounted :
      (live : ℕ → Bool) (this other : ℕ) (w : World)
      → this < k
      → other < k
      → live this ≡ false
      → live other ≡ true
      → IsCounted k live n w
      → Lands
          (λ w' u. IsCounted k (update live this true) n w')
          (RootHandle.move_construct this other w)
  unfolding RootHandle.move_construct
  move_construct-IsCounted live this other w lt lt' l l' h u q =
      let f : ℕ → ℕ = update w.field other 0 in
      ground (
        arith,
        h,
        l,
        l',
        pos,
        counted_change live live w.field f other 0 true lt' (λ v. ground (arith, l')) (λ v. refl),
        counted_change live (update live this true) f (update f this (w.field other)) this
            (w.field other) true lt (λ v. refl) (λ v. refl),
      )

  pub move_assign-IsCounted :
      (live : ℕ → Bool) (this other : ℕ) (w : World)
      → this < k
      → other < k
      → live this ≡ true
      → live other ≡ true
      → IsCounted k live n w
      → Lands (λ w' u. IsCounted k live n w') (RootHandle.move_assign this other w)
  unfolding RootHandle.move_assign
  move_assign-IsCounted live this other w lt lt' l l' h =
      let f : ℕ → ℕ = update w.field other (w.field this) in
      if-Lands (λ w' u. IsCounted k live n w') (other == this) (w, done tt) _ (λ e u q. h)
        (λ e u q. ground (
          arith,
          h,
          l,
          l',
          e,
          counted_change live live w.field f other (w.field this) true lt' (λ v. ground (arith, l'))
              (λ v. refl),
          counted_change live live f (update f this (w.field other)) this (w.field other) true lt
              (λ v. ground (arith, l)) (λ v. refl),
        ))

  -- A field outside all objects once its new value is copied and stored.
  abbrev Stored : (slot value : ℕ) → World → World → Unit {0} → Type 0
  Stored slot value w v u =
      (v.field ≡ update w.field slot value) × (roots v n ≡ roots w n + bit n value)

  store_copy-Lands :
      (c : Call) (slot value : ℕ) {role : Role} (w : World)
      → Old role
      → roots w n + 1 < 2 ^ 64
      → Lands (Stored slot value w) ((copy_handle c value role root >>= write slot) w)
  store_copy-Lands c slot value {role} w o b =
      bind-Lands (Gains n value w) (Stored slot value w) (copy_handle c value role root)
        (write slot) w (copy_handle-Lands n pos c value w o as_root b)
        (λ m v g.
          done-Lands (Stored slot value w) (record v { field = update v.field slot m }) tt
            ((λ i. update (g.1 i) slot (g.0 i)), g.2))

  destroy_old-IsCounted :
      (c : Call) (live : ℕ → Bool) (slot value : ℕ) (w v : World)
      → slot < k
      → live slot ≡ true
      → IsCounted k live n w
      → Stored slot value w v tt
      → Lands (λ w' u. IsCounted k live n w') (destroy_unless_null c (w.field slot) root v)
  destroy_old-IsCounted c live slot value w v lt l h g u q =
      let d =
        destroy_unless_null-Lands n pos c (w.field slot) v as_root
          (omega (arith, g.1, bit-held live slot w lt l h))
          (ground (arith, g.1, count-room live w h)) u q in
      let kept : total (bit n) k (held live (destroy_unless_null c (w.field slot) root v).0.field)
          ≡ total (bit n) k (held live v.field) =
        ap (λ f. total (bit n) k (held live f)) d.0 in
      ground (
        arith,
        h,
        l,
        g.1,
        d.1,
        kept,
        counted_change live live w.field v.field slot value true lt (λ x. ground (arith, l))
            (λ x i. g.0 i x),
      )

  -- A field outside all objects is assigned, and its old value is destroyed last.
  pub set_unmanaged-IsCounted :
      (s : Scene) (live : ℕ → Bool) (slot value : ℕ) {role : Role} (w : World)
      → slot < k
      → live slot ≡ true
      → Old role
      → IsCounted k live n w
      → Lands (λ w' u. IsCounted k live n w') (Field.set_unmanaged s slot value role w)
  unfolding Field.set_unmanaged
  set_unmanaged-IsCounted s live slot value {role} w lt l o h =
      let P : World → Unit {0} → Type 0 = λ w' u. IsCounted k live n w' in
      if-Lands P (w.field slot == value) (w, done tt) _ (λ e u q. h)
        (λ e.
          bind-Lands (Stored slot value w) P (copy_handle s.call value role root >>= write slot)
            (λ u. destroy_unless_null s.call (w.field slot) root) w
            (store_copy-Lands s.call slot value w o (count-room live w h))
            (λ u v g. destroy_old-IsCounted s.call live slot value w v lt l h g))
