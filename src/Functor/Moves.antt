-- ===== src/Functor/Moves.antt =====
-- What moves, swaps and copies do to single functors.
use async_berkeley.Base.{
  ℕ, ◌+◌, ◌≡◌, refl, ap, Bool, true, Option, none, some, ==_refl, if◌then◌else◌, ◌>>=◌, arith,
  Bool-cases, inl, inr, not, ◌||◌,
}
use async_berkeley.Functor.{
  Callables, Callable, Storage, Functor, Counts, access, vtable_move, vtable_copy, vtable_destroy,
  relocate, swap_functors, copy_functor, destroy_functor,
}

-- After `n` callables more were made and as many destroyed.
abbrev pub passed : ℕ → Counts → Counts
passed n c = record { made = c.made + n; destroyed = c.destroyed + n }

module _ {V : Type 0} where
  abbrev pub type_of : Storage V → Option ℕ
  type_of none = none
  type_of (some o) = some o.type

  -- A functor whose table is the one of the callable that it holds.
  abbrev pub holding : Storage V → Functor V
  holding s = record { storage = s; vptr = type_of s }

  abbrev pub weight : Storage V → ℕ
  weight none = 0
  weight (some o) = 1

  vtable_destroy-some :
      (o : Callable V) (c : Counts)
      → vtable_destroy o.type (some o) c ≡ some (none, record c { destroyed = c.destroyed + 1 })
  unfolding vtable_destroy access
  vtable_destroy-some o c = rw (==_refl o.type) refl

  pub destroy_functor-holding :
      (s : Storage V) (c : Counts)
      → destroy_functor (holding s) c ≡ some (record c { destroyed = c.destroyed + weight s })
  unfolding destroy_functor vtable_destroy access
  destroy_functor-holding none c = ground arith
  destroy_functor-holding (some o) c = rw (==_refl o.type) refl

module _ {V A R : Type 0} (C : Callables V A R) where
  -- A relocation moves the callable, and leaves nothing alive where it was.
  relocate-holding :
      (s : Storage V) (c : Counts)
      → relocate C (type_of s) s none c ≡ some (none, s, passed (weight s) c)
  unfolding relocate vtable_move vtable_destroy access
  relocate-holding none c = ground arith
  relocate-holding (some o) c = rw (==_refl o.type) (
      ap (λ d. d >>= λ y. some (y.0, some o, y.1))
        (vtable_destroy-some (record o { value = C.moved_from o.type o.value })
          (record c { made = c.made + 1 })))

  pub swap_functors-holding :
      (s t : Storage V) (c : Counts)
      → swap_functors C (holding s) (holding t) c
        ≡ some (holding t, holding s, passed (weight s) (passed (weight t) (passed (weight s) c)))
  unfolding swap_functors
  swap_functors-holding s t c =
      rw
        (
          relocate-holding s c,
          relocate-holding t (passed (weight s) c),
          relocate-holding s (passed (weight t) (passed (weight s) c)),
        )
        refl

  -- The copy of a callable, or nothing where its type has no copy constructor.
  unfoldable pub copied : Storage V → Storage V
  copied none = none
  copied (some o) = if C.is_copyable o.type then some o else none

  unfoldable pub can_copy : Bool → Storage V → Bool
  can_copy asserts none = true
  can_copy asserts (some o) = C.is_copyable o.type || not asserts

  pub copy_functor-holding :
      (asserts : Bool) (s : Storage V) (c : Counts)
      → copy_functor C asserts (holding s) c ≡ (
          if can_copy asserts s
          then some (holding (copied s), record c { made = c.made + weight (copied s) })
          else none)
  unfolding copy_functor vtable_copy access copied can_copy
  copy_functor-holding asserts none c = ground arith
  copy_functor-holding asserts (some o) c = elim (Bool-cases (C.is_copyable o.type)) [
    | inl y ↦ rw (==_refl o.type, y) refl
    | inr n ↦ elim (Bool-cases asserts) [
      | inl a ↦ rw (n, a) refl
      | inr a ↦ rw (n, a) (ground arith)
    ]
  ]
