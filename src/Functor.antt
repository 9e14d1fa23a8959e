-- ===== src/Functor.antt =====
-- `small_functor_impl` of include/io/detail/small_functor.hpp. A callable is its type, a number, with its
-- value; a piece of storage holds one that is alive, or none. The functors of a program stand in a
-- memory in which an address is an index, as a functor can be assigned to itself. An operation has no
-- outcome where it ends the program or is undefined: a call through a null pointer, a function of the
-- table on storage without a callable of its type, the use of a functor that was destroyed.
pub mod Moves
pub mod Balance
pub mod Programs
pub mod Accounts
pub mod Exchange
pub mod Examples
use async_berkeley.Base.{
  ℕ, ◌+◌, Bool, true, false, ◌&&◌, not, Option, none, some, List, [], ◌∷◌, ◌++◌, length, get_elem?,
  set, ◌==◌, if◌then◌else◌, ◌>>=◌,
}

-- What the types of the callables give: the value that a move leaves behind, whether there is a copy
-- constructor, and the call, which may change the value.
pub record Callables (V A R : Type 0) : Type 0 where
  pub moved_from : ℕ → V → V
  pub is_copyable : ℕ → Bool
  pub call : ℕ → V → A → R × V

pub record Callable (V : Type 0) : Type 0 where
  pub type : ℕ
  pub value : V

abbrev pub Storage : Type 0 → Type 0
Storage V = Option (Callable V)

-- `vptr` is the type of `vtable_for`, if it is not null.
pub record Functor (V : Type 0) : Type 0 where
  pub storage : Storage V
  pub vptr : Option ℕ

-- How many callables were constructed and destroyed.
pub record Counts : Type 0 where
  pub made : ℕ
  pub destroyed : ℕ

pub record Memory (V : Type 0) : Type 0 where
  pub functors : List (Option (Functor V))
  pub counts : Counts

module _ {V : Type 0} where
  -- The callable in a piece of storage, for a function of the table of type `t`.
  unfoldable pub access : ℕ → Storage V → Option (Callable V)
  access t none = none
  access t (some o) = if o.type == t then some o else none

  -- vtable::destroy
  unfoldable pub vtable_destroy : ℕ → Storage V → Counts → Option (Storage V × Counts)
  unfolding access
  vtable_destroy t ptr c =
      access t ptr >>= λ o. some (none, record c { destroyed = c.destroyed + 1 })

  -- small_functor()
  abbrev pub empty_functor : Functor V
  empty_functor = record { storage = none; vptr = none }

  -- small_functor(T &&)
  unfoldable pub from_callable : ℕ → V → Memory V → ℕ × Memory V
  from_callable t v m = (
    length m.functors,
    record {
      functors =
          m.functors
          ++ some (record { storage = some (record { type = t; value = v }); vptr = some t }) ∷ [];
      counts = record m.counts { made = m.counts.made + 1 };
    },
  )

  -- The functor at an address.
  unfoldable pub functor_at : ℕ → Memory V → Option (Functor V)
  functor_at i m = get_elem? m.functors i >>= λ cell. cell

  -- operator bool
  unfoldable pub is_set : Functor V → Bool
  is_set f = elim f.vptr [ none ↦ false | some t ↦ true ]

  -- ~small_functor_impl(), of one functor.
  unfoldable pub destroy_functor : Functor V → Counts → Option Counts
  unfolding vtable_destroy
  destroy_functor f c = elim f.vptr [
    | none ↦ some c
    | some t ↦ vtable_destroy t f.storage c >>= λ x. some x.1
  ]

  -- ~small_functor_impl()
  unfoldable pub destroy_at : ℕ → Memory V → Option (Memory V)
  unfolding functor_at destroy_functor
  destroy_at i m = functor_at i m >>= λ f. destroy_functor f m.counts >>= λ c.
      some (record { functors = set m.functors i none; counts = c })

module _ {V A R : Type 0} (C : Callables V A R) where
  -- vtable::move
  unfoldable pub vtable_move :
      ℕ → Storage V → Storage V → Counts → Option (Storage V × Storage V × Counts)
  unfolding access
  vtable_move t src dst c = access t src >>= λ o.
      some
        (some (record o { value = C.moved_from t o.value }), some o, record c { made = c.made + 1 })

  -- vtable::copy, where it is not null.
  unfoldable pub vtable_copy : ℕ → Storage V → Storage V → Counts → Option (Storage V × Counts)
  unfolding access
  vtable_copy t src dst c = access t src >>= λ o. some (some o, record c { made = c.made + 1 })

  -- `if (vptr) { vptr->move(src, dst); vptr->destroy(src); }`
  unfoldable pub relocate :
      Option ℕ → Storage V → Storage V → Counts → Option (Storage V × Storage V × Counts)
  unfolding vtable_move vtable_destroy
  relocate none src dst c = some (src, dst, c)
  relocate (some t) src dst c = vtable_move t src dst c >>= λ x.
      let (src', dst', c') = x in vtable_destroy t src' c' >>= λ y. some (y.0, dst', y.1)

  -- swap, of two functors at different addresses.
  unfoldable pub swap_functors :
      Functor V → Functor V → Counts → Option (Functor V × Functor V × Counts)
  unfolding relocate
  swap_functors lhs rhs c = relocate lhs.vptr lhs.storage none c >>= λ x.
      let (left, temp, c1) = x in
      relocate rhs.vptr rhs.storage left c1 >>= λ y.
      let (right, left', c2) = y in
      relocate lhs.vptr temp right c2 >>= λ z.
      let (temp', right', c3) = z in
      some (
        record { storage = left'; vptr = rhs.vptr },
        record { storage = right'; vptr = lhs.vptr },
        c3,
      )

  -- swap
  unfoldable pub swap : ℕ → ℕ → Memory V → Option (Memory V)
  unfolding functor_at swap_functors
  swap i j m =
      if i == j
      then some m
      else functor_at i m >>= λ f. functor_at j m >>= λ g. swap_functors f g m.counts >>= λ x.
          let (f', g', c) = x in
          some (record { functors = set (set m.functors i (some f')) j (some g'); counts = c })

  -- small_functor_impl(small_functor_impl &&)
  unfoldable pub move_construct : ℕ → Memory V → Option (ℕ × Memory V)
  unfolding swap
  move_construct other m =
      let this = length m.functors in
      swap this other (record m { functors = m.functors ++ some empty_functor ∷ [] }) >>= λ m'.
      some (this, m')

  -- operator=(small_functor_impl &&)
  unfoldable pub move_assign : ℕ → ℕ → Memory V → Option (Memory V)
  unfolding swap
  move_assign this other m = swap this other m

  -- operator()
  unfoldable pub invoke : ℕ → A → Memory V → Option (R × Memory V)
  unfolding functor_at access
  invoke i args m = functor_at i m >>= λ f. f.vptr >>= λ t. access t f.storage >>= λ o.
      let (r, v) = C.call t o.value args in
      some (
        r,
        record m {
          functors = set m.functors i (some (record f { storage = some (record o { value = v }) }));
        },
      )

  -- `asserts` is false in a build with NDEBUG.
  module _ (asserts : Bool) where
    -- small_functor_impl(const small_functor_impl &), of one functor.
    unfoldable pub copy_functor : Functor V → Counts → Option (Functor V × Counts)
    unfolding vtable_copy
    copy_functor other c = elim other.vptr [
      | none ↦ some (empty_functor, c)
      | some t ↦
          if C.is_copyable t
          then (vtable_copy t other.storage none c >>= λ x.
              some (record { storage = x.0; vptr = other.vptr }, x.1))
          else if asserts
          then none
          else some (empty_functor, c)
    ]

    -- small_functor_impl(const small_functor_impl &)
    unfoldable pub copy_construct : ℕ → Memory V → Option (ℕ × Memory V)
    unfolding functor_at copy_functor
    copy_construct other m = functor_at other m >>= λ f. copy_functor f m.counts >>= λ x.
        some (length m.functors, record { functors = m.functors ++ some x.0 ∷ []; counts = x.1 })

    -- operator=(const small_functor_impl &); `tmp` is destroyed at the end.
    unfoldable pub copy_assign : ℕ → ℕ → Memory V → Option (Memory V)
    unfolding functor_at copy_functor swap_functors destroy_functor
    copy_assign this other m =
        if this == other
        then some m
        else functor_at other m >>= λ f. functor_at this m >>= λ g. copy_functor f m.counts >>= λ x.
            let (tmp, c1) = x in
            swap_functors g tmp c1 >>= λ y.
            let (g', tmp', c2) = y in
            destroy_functor tmp' c2 >>= λ c3.
            some (record { functors = set m.functors this (some g'); counts = c3 })
