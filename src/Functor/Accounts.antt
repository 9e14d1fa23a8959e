-- ===== src/Functor/Accounts.antt =====
-- The operations on functors that are alive have an outcome, no callable is lost, and none is destroyed
-- twice.
use async_berkeley.Base.{
  ℕ, ◌+◌, ◌≡◌, refl, sym, ap, subst, ◌∙◌, Bool, true, false, ◌&&◌, ◌||◌, Option, none, some, List,
  [], ◌∷◌, ◌++◌, length, get_elem?, ◌==◌, ◌>>=◌, arith, Bool-cases, Option-cases, inl, inr,
  some_inj, ==_refl, lt_of_get_elem?, get_elem?-length, get_elem?-append,
}
use async_berkeley.Functor.{
  Callables, Storage, Functor, Memory, functor_at, is_set, from_callable, destroy_at, empty_functor,
  swap, move_construct, move_assign, invoke, access, copy_construct, copy_assign,
}
use async_berkeley.Functor.Moves.{
  holding, weight, passed, copied, can_copy, destroy_functor-holding, swap_functors-holding,
  copy_functor-holding,
}
use async_berkeley.Functor.Balance.{
  Balanced, functor_at-holding, Balanced-set, Balanced-removed, Balanced-append, Balanced-exchanged,
}
use async_berkeley.Functor.Programs.{
  Command, default_init, init, copy_init, move_init, delete, assign_copy, assign_move, exchange,
  apply, alive_at, copyable_at, callable_at, ready, run_command, run,
}

module _ {V : Type 0} where
  -- What an operation that is to have an outcome, if `ready`, makes of a memory.
  unfoldable pub Fine : Bool → Option (Memory V) → Type 0
  Fine ready none = ready ≡ false
  Fine ready (some m) = Balanced m

  Fine-map :
      (r : Bool) (o : Option (Memory V)) (x : ℕ)
      → Fine r o
      → let pair : Memory V → Option (ℕ × Memory V) = λ m. some (x, m) in
        Fine r (o >>= pair >>= λ y. some y.1)
  unfolding Fine
  Fine-map r none x h = h
  Fine-map r (some m) x h = h

  Fine-weaken :
      (r r' : Bool) (o : Option (Memory V)) → Fine r' o → (r ≡ true → r' ≡ true) → Fine r o
  unfolding Fine
  Fine-weaken r r' (some m) h k = h
  Fine-weaken true r' none h k = sym (k refl) ∙ h
  Fine-weaken false r' none h k = refl

  alive_at-append :
      (i : ℕ) (m : Memory V) (f : Functor V)
      → alive_at i m ≡ true
      → ((i == length m.functors) ≡ false)
        × (alive_at i (record m { functors = m.functors ++ some f ∷ [] }) ≡ true)
  unfolding alive_at functor_at
  alive_at-append i m f h = elim (Option-cases (get_elem? m.functors i)) [
    | inl n ↦ absurd (ground arith)
    | inr (cell, e) ↦
        let inside = lt_of_get_elem? m.functors i cell e in
        let kept = get_elem?-append m.functors (some f ∷ []) i inside in
        (ground arith, rw (alive_at, functor_at, kept) h)
  ]

  alive_at-last :
      (m : Memory V) (f : Functor V)
      → alive_at (length m.functors) (record m { functors = m.functors ++ some f ∷ [] }) ≡ true
  unfolding alive_at functor_at
  alive_at-last m f = rw (alive_at, functor_at, get_elem?-length m.functors (some f) []) refl

module _ {V A R : Type 0} (C : Callables V A R) (m : Memory V) (b : Balanced m) where
  swap-Fine : (i j : ℕ) → Fine (i == j || (alive_at i m && alive_at j m)) (swap C i j m)
  unfolding Fine swap alive_at
  swap-Fine i j = elim (Bool-cases (i == j)) [
    | inl e ↦ rw e b
    | inr e ↦ elim (Option-cases (functor_at i m)) [
      | inl p ↦ rw (e, p, alive_at) refl
      | inr (f, p) ↦ elim (Option-cases (functor_at j m)) [
        | inl q ↦ rw (e, p, q, alive_at) refl
        | inr (g, q) ↦
            let (p', x) = functor_at-holding i m f b p in
            let (q', y) = functor_at-holding j m g b q in
            rw (e, p', q', swap_functors-holding C f.storage g.storage m.counts)
              (Balanced-exchanged i j m f.storage g.storage
                (passed (weight f.storage)
                  (passed (weight g.storage) (passed (weight f.storage) m.counts)))
                b x y e (omega arith))
      ]
    ]
  ]

  destroy_at-Fine : (i : ℕ) → Fine (alive_at i m) (destroy_at i m)
  unfolding Fine destroy_at alive_at
  destroy_at-Fine i = elim (Option-cases (functor_at i m)) [
    | inl p ↦ rw (p, alive_at) refl
    | inr (f, p) ↦
        let (p', x) = functor_at-holding i m f b p in
        rw (p', destroy_functor-holding f.storage m.counts)
          (Balanced-removed i m f.storage
            (record m.counts { destroyed = m.counts.destroyed + weight f.storage }) b x
            (omega arith))
  ]

  invoke-Fine :
      (asserts : Bool) (i : ℕ) (args : A)
      → Fine (callable_at C asserts i m) (invoke C i args m >>= λ x. some x.1)
  unfolding Fine invoke callable_at access is_set
  invoke-Fine asserts i args = elim (Option-cases (functor_at i m)) [
    | inl p ↦ rw (p, callable_at) refl
    | inr (f, p) ↦ let (p', x) = functor_at-holding i m f b p in called f.storage p' x
  ]
    where
      called :
          (s : Storage V)
          → functor_at i m ≡ some (holding s)
          → get_elem? m.functors i ≡ some (some (holding s))
          → Fine (callable_at C asserts i m) (invoke C i args m >>= λ x. some x.1)
      called none p x = rw (p, callable_at, invoke) refl
      called (some o) p x =
          rw (p, callable_at, invoke, ==_refl o.type)
            (Balanced-set i m (some o) (some (record o { value = (C.call o.type o.value args).1 }))
              m.counts b x (omega arith))

  copy_construct-Fine :
      (asserts : Bool) (other : ℕ)
      → Fine (copyable_at C asserts other m) (copy_construct C asserts other m >>= λ x. some x.1)
  unfolding Fine copy_construct copyable_at
  copy_construct-Fine asserts other = elim (Option-cases (functor_at other m)) [
    | inl p ↦ rw (p, copyable_at) refl
    | inr (f, p) ↦
        let (p', x) = functor_at-holding other m f b p in
        elim (Bool-cases (can_copy C asserts f.storage)) [
          | inl y ↦
              rw (p', copy_functor-holding C asserts f.storage m.counts, y)
                (Balanced-append m (copied C f.storage)
                  (record m.counts { made = m.counts.made + weight (copied C f.storage) }) b
                  (omega arith))
          | inr n ↦ rw (p', copyable_at, copy_functor-holding C asserts f.storage m.counts, n) refl
        ]
  ]

  copy_assign-Fine :
      (asserts : Bool) (this other : ℕ)
      → Fine
          (this == other || (copyable_at C asserts other m && alive_at this m))
          (copy_assign C asserts this other m)
  unfolding Fine copy_assign copyable_at alive_at
  copy_assign-Fine asserts this other = elim (Bool-cases (this == other)) [
    | inl e ↦ rw e b
    | inr e ↦ elim (Option-cases (functor_at other m)) [
      | inl p ↦ rw (e, p, copyable_at) refl
      | inr (f, p) ↦ elim (Option-cases (functor_at this m)) [
        | inl q ↦ rw (e, p, q, alive_at) (ground arith)
        | inr (g, q) ↦
            let (p', x) = functor_at-holding other m f b p in
            let (q', y) = functor_at-holding this m g b q in assigned f.storage g.storage e p' q' y
      ]
    ]
  ]
    where
      assigned :
          (s t : Storage V)
          → (this == other) ≡ false
          → functor_at other m ≡ some (holding s)
          → functor_at this m ≡ some (holding t)
          → get_elem? m.functors this ≡ some (some (holding t))
          → Fine
              (this == other || (copyable_at C asserts other m && alive_at this m))
              (copy_assign C asserts this other m)
      assigned s t e p q y =
          let c = record m.counts { made = m.counts.made + weight (copied C s) } in
          let c' = passed (weight t) (passed (weight (copied C s)) (passed (weight t) c)) in
          elim (Bool-cases (can_copy C asserts s)) [
            | inl yes_copy ↦
                rw
                  (
                    e,
                    p,
                    q,
                    copy_functor-holding C asserts s m.counts,
                    yes_copy,
                    swap_functors-holding C t (copied C s) c,
                    destroy_functor-holding t c',
                  )
                  (Balanced-set this m t (copied C s)
                    (record c' { destroyed = c'.destroyed + weight t }) b y (omega arith))
            | inr no_copy ↦
                rw (e, p, q, copyable_at, copy_functor-holding C asserts s m.counts, no_copy) refl
          ]

module _ {V A R : Type 0} (C : Callables V A R) where
  move_construct-Fine :
      (m : Memory V) (b : Balanced m) (other : ℕ)
      → Fine (alive_at other m) (move_construct C other m >>= λ x. some x.1)
  unfolding move_construct
  move_construct-Fine m b other =
      let m' : Memory V = record m { functors = m.functors ++ some empty_functor ∷ [] } in
      let b' : Balanced m' = Balanced-append m none m.counts b (omega arith) in
      let this = length m.functors in
      Fine-map (alive_at other m) (swap C this other m') this (
        Fine-weaken (alive_at other m) (this == other || (alive_at this m' && alive_at other m'))
          (swap C this other m') (swap-Fine C m' b' this other)
          (λ h.
            let (apart, here) = alive_at-append other m empty_functor h in
            let last = alive_at-last m empty_functor in ground arith))

  run_command-Fine :
      (asserts : Bool) (c : Command V A) (m : Memory V)
      → Balanced m
      → Fine (ready C asserts c m) (run_command C asserts c m)
  unfolding Fine run_command ready from_callable move_assign
  run_command-Fine asserts default_init m b = Balanced-append m none m.counts b (omega arith)
  run_command-Fine asserts (init t v) m b =
      Balanced-append m (some (record { type = t; value = v }))
        (record m.counts { made = m.counts.made + 1 }) b (omega arith)
  run_command-Fine asserts (copy_init other) m b = copy_construct-Fine C m b asserts other
  run_command-Fine asserts (move_init other) m b = move_construct-Fine m b other
  run_command-Fine asserts (delete i) m b = destroy_at-Fine C m b i
  run_command-Fine asserts (assign_copy this other) m b = copy_assign-Fine C m b asserts this other
  run_command-Fine asserts (assign_move this other) m b = swap-Fine C m b this other
  run_command-Fine asserts (exchange i j) m b = swap-Fine C m b i j
  run_command-Fine asserts (apply i args) m b = invoke-Fine C m b asserts i args

  -- An operation on a balanced memory whose functors are alive, and fit for it, is defined, and leaves a
  -- balanced memory: each functor holds what its table says, and each callable that was made is alive or
  -- was destroyed.
  pub run_command-Balanced :
      (asserts : Bool) (c : Command V A) (m : Memory V)
      → Balanced m
      → ready C asserts c m ≡ true
      → (m' : Memory V) × (run_command C asserts c m ≡ some m') × Balanced m'
  unfolding Fine
  run_command-Balanced asserts c m b r = elim (Option-cases (run_command C asserts c m)) [
    | inl n ↦
        let idle = subst (Fine (ready C asserts c m)) n (run_command-Fine asserts c m b) in
        absurd (ground arith)
    | inr (m', e) ↦ (m', e, subst (Fine (ready C asserts c m)) e (run_command-Fine asserts c m b))
  ]

  -- Whatever a program does with functors, from a balanced memory on and as far as its operations are
  -- defined, the memory is balanced at the end.
  pub run-Balanced :
      (asserts : Bool) (cs : List (Command V A)) (m m' : Memory V)
      → Balanced m
      → run C asserts cs m ≡ some m'
      → Balanced m'
  unfolding run Fine
  run-Balanced asserts [] m m' b h = subst Balanced (some_inj h) b
  run-Balanced asserts (c ∷ cs) m m' b h = elim (Option-cases (run_command C asserts c m)) [
    | inl n ↦ let bad = sym (ap (λ o. o >>= run C asserts cs) n) ∙ h in absurd (ground arith)
    | inr (t, e) ↦
        run-Balanced asserts cs t m'
          (subst (Fine (ready C asserts c m)) e (run_command-Fine asserts c m b))
          (sym (ap (λ o. o >>= run C asserts cs) e) ∙ h)
  ]
