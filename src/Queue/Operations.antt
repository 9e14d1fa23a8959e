-- ===== src/Queue/Operations.antt =====
-- The queue operations on a family of queues.
use async_berkeley.Base.{
  ◌≡◌, refl, true, false, some, List, [], ◌∷◌, ◌++◌, arith, ◌==◌, ==_iff, Bool-cases, inl, inr, ◌⊎◌,
}
use async_berkeley.Queue.{Addr, Task, Heap, push, pop, move_back}
use async_berkeley.Queue.Links.{tail_of, has, has-append, ne_of_has, IsQueue}
use async_berkeley.Queue.Contents.{
  Returns, Returns-some, SameOutside, Apart, push-append, pop-cons, pop-nil, move_back-append,
}
use async_berkeley.Queue.Family.{
  Lists, with_list, Holds, AllApart, Elsewhere, AllApart-with_list, Holds-change, Apart-sym,
}

-- The tasks of one queue go behind those of another one.
abbrev pub moved : Lists → Addr → Addr → Lists
moved c q other = with_list (with_list c other []) q (c q ++ c other)

module _ {h : Heap} (qs : List Addr) (c : Lists) (k : Holds h qs c) where
  Elsewhere-old : (q a : Addr) → has q qs ≡ true → has a (q ∷ c q) ≡ true → Elsewhere qs c q a
  Elsewhere-old q a in_q there r in_r differ =
      Apart-sym (r ∷ c r) (q ∷ c q) (k.apart r q in_r in_q differ) a there

  -- One queue changes.
  Holds-one :
      {g : Heap} {ys : List Addr} (q : Addr) (xs : List Addr)
      → IsQueue g q xs
      → SameOutside h g ys (q ∷ [])
      → ((r : Addr) → has r qs ≡ true → (r == q) ≡ false → Apart (r ∷ c r) ys)
      → ((a : Addr) → has a (q ∷ xs) ≡ true → Elsewhere qs c q a)
      → Holds g qs (with_list c q xs)
  Holds-one {g} {ys} q xs i same away out =
      Holds-change qs c (with_list c q xs) k same each (AllApart-with_list qs c q xs out k.apart)
    where
      each :
          (r : Addr)
          → has r qs ≡ true
          → IsQueue g r (with_list c q xs r)
            ⊎ ((has r (q ∷ []) ≡ false) × (with_list c q xs r ≡ c r) × Apart (r ∷ c r) ys)
      each r in_r = elim (Bool-cases (r == q)) [
        | inl is_q ↦ inl (rw (is_q, (==_iff r q).0 is_q) i)
        | inr other ↦ inr (rw other refl, rw other refl, away r in_r other)
      ]

  -- A task of no queue.
  abbrev pub IsNew : Addr → Type 0
  IsNew t = (r : Addr) → has r qs ≡ true → has t (r ∷ c r) ≡ false

  pub push-Holds :
      (q t : Addr) (n : Task)
      → has q qs ≡ true
      → h t ≡ some n
      → IsNew t
      → Returns (push q t h) (λ _ g.
        Holds g qs (with_list c q (c q ++ t ∷ []))
        × ((a : Addr) → (a == q) ≡ false → tail_of g a ≡ tail_of h a))
  push-Holds q t n in_q there new =
      let (u, g, runs, done) =
        Returns-some (push q t h) _ (push-append t n (k.queue q in_q) there (new q in_q)) in
      let (i, same) = done in
      rw runs (
        Holds-one q (c q ++ t ∷ []) i same
            (λ r in_r differ a at_r. ground (arith, new r in_r, Elsewhere-old r a in_r at_r q in_q))
            (λ a in_a r in_r differ. pushed a in_a r in_r differ (Bool-cases (has a (q ∷ c q)))),
        λ a other. same.tails a (rw other refl),
      )
    where
      pushed :
          (a : Addr)
          → has a (q ∷ c q ++ t ∷ []) ≡ true
          → (r : Addr) → has r qs ≡ true
          → (r == q) ≡ false
          → (has a (q ∷ c q) ≡ true) ⊎ (has a (q ∷ c q) ≡ false)
          → has a (r ∷ c r) ≡ false
      pushed a in_a r in_r differ (inl old) = Elsewhere-old q a in_q old r in_r differ
      pushed a in_a r in_r differ (inr fresh) =
          let is_t : a ≡ t = ground (arith, has-append a (c q) (t ∷ [])) in
          ground (arith, new r in_r)

  -- A pop takes the front task, or returns the sentinel of an empty queue.
  abbrev pub front : Addr → List Addr → Addr
  front q [] = q
  front q (x ∷ xs) = x

  abbrev pub rest : List Addr → List Addr
  rest [] = []
  rest (x ∷ xs) = xs

  popped :
      (q : Addr) (xs : List Addr)
      → IsQueue h q xs
      → Returns
          (pop q h)
          (λ a g. (a ≡ front q xs) × IsQueue g q (rest xs) × SameOutside h g (q ∷ []) (q ∷ []))
  popped q [] i =
      let (a, g, runs, done) = Returns-some (pop q h) _ (pop-nil i) in
      let (e, j, same) = done in
      rw runs (e, j, record { nexts = λ a o. same.nexts a refl; tails = λ a o. same.tails a refl })
  popped q (x ∷ xs) i = pop-cons i

  pub pop-Holds :
      (q : Addr)
      → has q qs ≡ true
      → Returns (pop q h) (λ a g. (a ≡ front q (c q)) × Holds g qs (with_list c q (rest (c q))))
  pop-Holds q in_q =
      let (a, g, runs, done) = Returns-some (pop q h) _ (popped q (c q) (k.queue q in_q)) in
      let (e, i, same) = done in
      rw runs (
        e,
        Holds-one q (rest (c q)) i same
            (λ r in_r differ a at_r. ground (arith, Elsewhere-old r a in_r at_r q in_q))
            (λ a in_a r in_r differ.
              Elsewhere-old q a in_q (rest_has a q (c q) in_a) r in_r differ),
      )
    where
      rest_has : (a q : Addr) (xs : List Addr) → has a (q ∷ rest xs) ≡ true → has a (q ∷ xs) ≡ true
      rest_has a q [] e = e
      rest_has a q (x ∷ xs) e = ground arith

  moved-AllApart :
      (q other : Addr)
      → has q qs ≡ true
      → has other qs ≡ true
      → (q == other) ≡ false
      → AllApart qs (moved c q other)
  moved-AllApart q other in_q in_other differ =
      AllApart-with_list qs (with_list c other []) q (c q ++ c other) joined (
        AllApart-with_list qs c other []
          (λ a in_a r in_r apart. Elsewhere-old other a in_other (ground arith) r in_r apart)
          k.apart)
    where
      joined :
          (a : Addr) → has a (q ∷ c q ++ c other) ≡ true → Elsewhere qs (with_list c other []) q a
      joined a in_a r in_r r_q = elim (Bool-cases (has a (q ∷ c q))) [
        | inl old ↦ ground (arith, Elsewhere-old q a in_q old r in_r r_q)
        | inr new ↦
            let tail_in : has a (c other) ≡ true = ground (arith, has-append a (c q) (c other)) in
            ground (
              arith,
              ne_of_has a other (c other) tail_in (k.queue other in_other).distinct.0,
              Elsewhere-old other a in_other (ground arith) r in_r,
            )
      ]

  pub move_back-Holds :
      (q other : Addr)
      → has q qs ≡ true
      → has other qs ≡ true
      → (q == other) ≡ false
      → Returns (move_back q other h) (λ _ g. Holds g qs (moved c q other))
  move_back-Holds q other in_q in_other differ =
      let (u, g, runs, done) = Returns-some (move_back q other h) _ (
        move_back-append (k.queue q in_q) (k.queue other in_other)
          (k.apart q other in_q in_other differ)) in
      let (i, j, same) = done in
      rw runs (
        Holds-change qs c (moved c q other) k same (λ r in_r. each g i j r in_r)
          (moved-AllApart q other in_q in_other differ))
    where
      each :
          (g : Heap)
          → IsQueue g q (c q ++ c other)
          → IsQueue g other []
          → (r : Addr) → has r qs ≡ true
          → IsQueue g r (moved c q other r)
            ⊎ ((has r (q ∷ other ∷ []) ≡ false)
                × (moved c q other r ≡ c r)
                × Apart (r ∷ c r) ((q ∷ c q) ++ other ∷ c other))
      each g i j r in_r = elim (Bool-cases (r == q)) [
        | inl is_q ↦ inl (rw (is_q, (==_iff r q).0 is_q) i)
        | inr not_q ↦ elim (Bool-cases (r == other)) [
          | inl is_other ↦ inl (rw (not_q, is_other, (==_iff r other).0 is_other) j)
          | inr not_other ↦ inr (
            ground arith,
            rw (not_q, not_other) refl,
            λ a at_r. ground (
              arith,
              has-append a (c q) (other ∷ c other),
              Elsewhere-old r a in_r at_r q in_q,
              Elsewhere-old r a in_r at_r other in_other,
            ),
          )
        ]
      ]
