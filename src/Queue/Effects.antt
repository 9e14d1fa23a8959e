-- ===== src/Queue/Effects.antt =====
-- What each queue operation does to the pointers, for whatever lists they form.
use async_berkeley.Base.{◌≡◌, false, some, arith, ◌==◌, if◌then◌else◌, Bool-cases, inl, inr, ◌&&◌}
use async_berkeley.Queue.{
  Addr, link, Task, Heap, with_next, with_tail, is_empty, push, pop, move_back,
}
use async_berkeley.Queue.Links.{next_of, tail_of}

pub is_empty-run :
    (h : Heap) (q l : Addr) → tail_of h q ≡ some (link l) → is_empty q h ≡ some (l == q, h)
unfolding is_empty
is_empty-run h q l e = ground arith

pub record Pushed (h : Heap) (q task l : Addr) (g : Heap) : Type 0 where
  pub nexts :
      (a : Addr)
      → next_of g a ≡ (if a == l then some task else if a == task then some q else next_of h a)
  pub tails : (a : Addr) → tail_of g a ≡ (if a == q then some (link task) else tail_of h a)

pub push-run :
    (h : Heap) (q task l : Addr) (n k : Task)
    → tail_of h q ≡ some (link l)
    → h task ≡ some n
    → h l ≡ some k
    → (q == task) ≡ false
    → (g : Heap) × (push q task h ≡ some (tt, g)) × Pushed h q task l g
unfolding push with_next with_tail
push-run h q task l n k e en ek ne = (
  with_tail (with_next (with_next h task q) l task) q (link task),
  ground arith,
  record { nexts = λ a. ground arith; tails = λ a. ground arith },
)

pub record Moved (h : Heap) (q other l ol first e : Addr) (g : Heap) : Type 0 where
  pub nexts :
      (a : Addr)
      → next_of g a ≡ (
          if a == other
          then some other
          else if a == l
          then some first
          else if a == ol
          then some e
          else next_of h a)
  pub tails :
      (a : Addr)
      → tail_of g a
        ≡ (if a == other then some (link other) else if a == q then some (link ol) else tail_of h a)

pub move_back-run :
    (h : Heap) (q other l ol first e : Addr)
    → tail_of h q ≡ some (link l)
    → tail_of h other ≡ some (link ol)
    → next_of h l ≡ some e
    → next_of h other ≡ some first
    → next_of h ol ≡ some other
    → (ol == other) ≡ false
    → (other == q) ≡ false
    → (ol == q) ≡ false
    → (other == l) ≡ false
    → (ol == l) ≡ false
    → (g : Heap) × (move_back q other h ≡ some (tt, g)) × Moved h q other l ol first e g
unfolding move_back with_next with_tail
move_back-run h q other l ol first e tq to nl nf oe h1 h2 h3 h4 h5 = (
  with_next
      (with_tail (with_tail (with_next (with_next h ol e) l first) q (link ol)) other (link other))
      other other,
  ground arith,
  record { nexts = λ a. ground arith; tails = λ a. ground arith },
)

-- An empty queue adds nothing.
pub move_back_nothing :
    (h : Heap) (q other : Addr)
    → tail_of h other ≡ some (link other)
    → move_back q other h ≡ some (tt, h)
unfolding move_back
move_back_nothing h q other e = ground arith

pub record Popped (h : Heap) (q l first e : Addr) (g : Heap) : Type 0 where
  pub nexts : (a : Addr) → next_of g a ≡ (if a == q then some e else next_of h a)
  pub tails :
      (a : Addr) → tail_of g a ≡ (if (a == q) && (l == first) then some (link q) else tail_of h a)

pub pop-run :
    (h : Heap) (q l first e : Addr)
    → tail_of h q ≡ some (link l)
    → next_of h q ≡ some first
    → next_of h first ≡ some e
    → (g : Heap) × (pop q h ≡ some (first, g)) × Popped h q l first e g
unfolding pop with_next with_tail
pop-run h q l first e tq nq nf = elim (Bool-cases (l == first)) [
  | inl only ↦ (
    with_next (with_tail h q (link q)) q e,
    ground arith,
    record { nexts = λ a. ground arith; tails = λ a. ground arith },
  )
  | inr more ↦ (
    with_next h q e,
    ground arith,
    record { nexts = λ a. ground arith; tails = λ a. ground arith },
  )
]
