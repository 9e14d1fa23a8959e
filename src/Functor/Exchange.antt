-- ===== src/Functor/Exchange.antt =====
-- What swap and the moves do to the functors of a program, seen from outside.
use async_berkeley.Base.{
  ℕ, ◌≡◌, refl, sym, ap, ◌∙◌, true, false, Option, some, ◌==◌, if◌then◌else◌, ◌>>=◌, arith,
  Bool-cases, inl, inr, some_inj, get_elem?-set, get_elem?, set,
}
use async_berkeley.Functor.{Callables, Functor, Memory, functor_at, swap, move_assign}
use async_berkeley.Functor.Moves.{holding, weight, passed, swap_functors-holding}
use async_berkeley.Functor.Balance.{Balanced, functor_at-holding}

module _ {V A R : Type 0} (C : Callables V A R) where
  -- The functor at `k` after an exchange of those at `i` and `j`, which are `f` and `g`.
  unfoldable pub exchanged : ℕ → ℕ → Functor V → Functor V → Memory V → ℕ → Option (Functor V)
  exchanged i j f g m k = if k == j then some f else if k == i then some g else functor_at k m

  -- Swapping two functors of a balanced memory, which may be the same one, and likewise assigning one to
  -- the other by a move, gives each the callable of the other, in the state it was in, and changes no
  -- other functor.
  pub swap-exchanged :
      (i j : ℕ) (f g : Functor V) (m : Memory V)
      → Balanced m
      → functor_at i m ≡ some f
      → functor_at j m ≡ some g
      → (m' : Memory V) × (swap C i j m ≡ some m')
        × (move_assign C i j m ≡ some m')
        × ((k : ℕ) → functor_at k m' ≡ exchanged i j f g m k)
  unfolding swap move_assign exchanged functor_at
  swap-exchanged i j f g m b p q = elim (Bool-cases (i == j)) [
    | inl e ↦ (m, rw e refl, rw e refl, λ k. same k e)
    | inr e ↦
        let (p', x) = functor_at-holding i m f b p in
        let (q', y) = functor_at-holding j m g b q in
        let run : swap C i j m
            ≡ some (record {
              functors =
                  set (set m.functors i (some (holding g.storage))) j (some (holding f.storage));
              counts =
                  passed (weight f.storage)
                    (passed (weight g.storage) (passed (weight f.storage) m.counts));
            }) =
          rw (e, p', q', swap_functors-holding C f.storage g.storage m.counts) refl in
        (_, run, run, λ k. apart k e x y (some_inj (sym p ∙ p')) (some_inj (sym q ∙ q')))
  ]
    where
      same : (k : ℕ) → (i == j) ≡ true → functor_at k m ≡ exchanged i j f g m k
      same k e = elim (Bool-cases (k == j)) [
        | inl h ↦
            let to_i : k ≡ i = ground arith in rw (h, exchanged) (ap (λ n. functor_at n m) to_i ∙ p)
        | inr h ↦ let not_i : (k == i) ≡ false = ground arith in rw (h, not_i, exchanged) refl
      ]

      apart :
          (k : ℕ)
          → (i == j) ≡ false
          → get_elem? m.functors i ≡ some (some (holding f.storage))
          → get_elem? m.functors j ≡ some (some (holding g.storage))
          → f ≡ holding f.storage
          → g ≡ holding g.storage
          → (get_elem?
                (set (set m.functors i (some (holding g.storage))) j (some (holding f.storage)))
                k
              >>= λ cell. cell)
            ≡ exchanged i j f g m k
      apart k e x y f_holds g_holds =
          let still : get_elem? (set m.functors i (some (holding g.storage))) j
              ≡ some (some (holding g.storage)) =
            get_elem?-set m.functors i j (some (holding f.storage)) (some (holding g.storage)) x
            ∙ rw e y in
          ap (λ o. o >>= λ cell. cell)
            (get_elem?-set (set m.functors i (some (holding g.storage))) j k
              (some (holding g.storage)) (some (holding f.storage)) still)
          ∙ ground (
            arith,
            get_elem?-set m.functors i k (some (holding f.storage)) (some (holding g.storage)) x,
          )
