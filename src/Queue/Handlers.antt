-- ===== src/Queue/Handlers.antt =====
-- The handlers of the tasks in the queues, and the write `task::tail = state::complete`.
use async_berkeley.Base.{
  ℕ, ◌≡◌, refl, ◌∙◌, true, false, some, List, [], ◌∷◌, ◌++◌, arith, ◌==◌, ==_iff, ==_refl,
  Bool-cases, if◌then◌else◌, inl, inr,
}
use async_berkeley.Queue.{Addr, Task, Tail, handler, Heap, with_tail, set_tail}
use async_berkeley.Queue.Links.{next_of, tail_of, has, has-append, ne_of_has}
use async_berkeley.Queue.Contents.{Returns, SameOutside}
use async_berkeley.Queue.Family.{Lists, with_list, Holds, Holds-change}
use async_berkeley.Queue.Operations.{IsNew}

-- Each task in the queues has the handler that `complete_of` gives.
abbrev pub Called : List Addr → (Addr → ℕ) → Heap → Lists → Type 0
Called qs complete_of h c =
    (q a : Addr)
    → has q qs ≡ true
    → has a (c q) ≡ true
    → tail_of h a ≡ some (handler (complete_of a))

module _ (h : Heap) (t : Addr) (n : Task) (v : Tail) (there : h t ≡ some n) where
  with_tail-next_of : (a : Addr) → next_of (with_tail h t v) a ≡ next_of h a
  unfolding with_tail
  with_tail-next_of a = ground arith

  with_tail-tail_of :
      (a : Addr) → tail_of (with_tail h t v) a ≡ (if a == t then some v else tail_of h a)
  unfolding with_tail
  with_tail-tail_of a = ground (arith, ==_iff a t)

module _ {h : Heap} (qs : List Addr) (c : Lists) (k : Holds h qs c) where
  -- The tail of a task of no queue can be written.
  pub set_tail-Holds :
      (t : Addr) (n : Task) (v : Tail)
      → h t ≡ some n
      → IsNew qs c k t
      → Returns (set_tail t v h) (λ _ g.
        Holds g qs c
        × (g t ≡ some (record n { tail = v }))
        × ((a : Addr) → tail_of g a ≡ (if a == t then some v else tail_of h a)))
  unfolding set_tail with_tail
  set_tail-Holds t n v there new =
      let same : SameOutside h (with_tail h t v) [] (t ∷ []) = record {
        nexts = λ a out. with_tail-next_of h t n v there a;
        tails = λ a out. with_tail-tail_of h t n v there a ∙ ground arith;
      } in
      rw (set_tail, there)
        (
          Holds-change qs c c k same
              (λ r in_r. inr (ground (arith, new r in_r), refl, λ a at_r. refl)) k.apart,
          ground (arith, ==_refl t),
          with_tail-tail_of h t n v there,
        )

  -- A task with its handler goes to the end of a queue, and no other task's handler changes.
  pub Called-pushed :
      (complete_of : Addr → ℕ) (g : Heap) (q t : Addr)
      → has q qs ≡ true
      → IsNew qs c k t
      → Called qs complete_of h c
      → ((a : Addr)
          → (a == q) ≡ false
          → tail_of g a ≡ (if a == t then some (handler (complete_of t)) else tail_of h a))
      → Called qs complete_of g (with_list c q (c q ++ t ∷ []))
  Called-pushed complete_of g q t in_q new called tails r a in_r there =
      elim (Bool-cases (a == t)) [
        | inl is_t ↦ let same : a ≡ t = (==_iff a t).0 is_t in ground (arith, tails a, new q in_q)
        | inr old ↦ elim (Bool-cases (r == q)) [
          | inl is_q ↦
              let at_q : r ≡ q = (==_iff r q).0 is_q in
              let in_q' : has a (c q) ≡ true = ground (arith, has-append a (c q) (t ∷ [])) in
              ground (
                arith,
                tails a,
                called q a in_q in_q',
                ne_of_has a q (c q) in_q' (k.queue q in_q).distinct.0,
              )
          | inr other ↦
              let in_c : has a (c r) ≡ true = ground arith in
              ground (arith, tails a, called r a in_r in_c, k.apart r q in_r in_q other a)
        ]
      ]
