-- ===== src/Queue/Drain.antt =====
-- `run_queue` of include/io/execution/impl/poll_multiplexer_impl.hpp. A call of a handler is
-- recorded; what it does elsewhere is no part of the queue's heap.
use async_berkeley.Base.{
  ℕ, zero, suc, ◌<◌, ◌≡◌, refl, ap, true, false, none, some, List, [], ◌∷◌, map, arith, length, All,
}
use async_berkeley.Queue.{Addr, handler, Heap, Code, give, ◌>>=◌, is_empty, pop, execute}
use async_berkeley.Queue.Links.{tail_of, has, IsQueue}
use async_berkeley.Queue.Contents.{Returns, Returns-some, is_empty-IsQueue, pop-cons}

-- The tasks that ran, each with its handler. `none` also stands for fuel that ran out.
unfoldable pub run_queue : ℕ → Addr → Code (List (Addr × ℕ))
run_queue zero q = λ _. none
run_queue (suc fuel) q = do
  empty ← is_empty q
  elim empty [
    | true ↦ give []
    | false ↦ do
      task ← pop q
      ran ← execute task
      later ← run_queue fuel q
      give ((task, ran) ∷ later)
  ]

execute-handler :
    (h : Heap) (x k : Addr) → tail_of h x ≡ some (handler k) → execute x h ≡ some (k, h)
unfolding execute
execute-handler h x k e = ground arith

-- Every task of the list has the handler that `f` names.
abbrev pub Handlers : Heap → (Addr → ℕ) → List Addr → Type 0
Handlers h f = All (λ x. tail_of h x ≡ some (handler (f x)))

Handlers-frame :
    (h g : Heap) (f : Addr → ℕ) (q : Addr) (xs : List Addr)
    → ((a : Addr) → has a (q ∷ []) ≡ false → tail_of g a ≡ tail_of h a)
    → has q xs ≡ false
    → Handlers h f xs
    → Handlers g f xs
Handlers-frame h g f q [] same out c = tt
Handlers-frame h g f q (x ∷ xs) same out c =
    (ground (arith, same x), Handlers-frame h g f q xs same (ground arith) c.1)

-- With more fuel than tasks the loop ends: it has run every task of the queue once, in order, with
-- the task's own handler, and the queue is empty.
pub run_queue-all :
    (f : Addr → ℕ) (fuel : ℕ) (h : Heap) (q : Addr) (xs : List Addr)
    → IsQueue h q xs
    → Handlers h f xs
    → length xs < fuel
    → Returns (run_queue fuel q h) (λ ran g. (ran ≡ map (λ x. (x, f x)) xs) × IsQueue g q [])
unfolding run_queue
run_queue-all f zero h q xs i c enough = elim enough [ ]
run_queue-all f (suc fuel) h q [] i c enough =
    let ends : run_queue (suc fuel) q h ≡ some ([], h) = ground (arith, is_empty-IsQueue i) in
    rw ends (refl, i)
run_queue-all f (suc fuel) h q (x ∷ xs) i c enough =
    let (a, g, runs, e_j_same) = Returns-some (pop q h) _ (pop-cons i) in
    let (e, j, same) = e_j_same in
    let at_x = i.distinct.0 in
    let kept : tail_of g x ≡ some (handler (f x)) = ground (arith, same.tails x) in
    let rest = Handlers-frame h g f q xs same.tails (ground arith) c.1 in
    let (later, g', runs', ran_done) =
      Returns-some (run_queue fuel q g) _ (run_queue-all f fuel g q xs j rest (omega arith)) in
    let steps : run_queue (suc fuel) q h ≡ some ((x, f x) ∷ later, g') =
      ground (arith, is_empty-IsQueue i, runs, e, execute-handler g x (f x) kept, runs') in
    rw steps (ap (◌∷◌ (x, f x)) ran_done.0, ran_done.1)
