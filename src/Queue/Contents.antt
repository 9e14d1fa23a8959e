-- ===== src/Queue/Contents.antt =====
-- The queue operations on the lists that the pointers form.
use async_berkeley.Base.{
  ◌≡◌, refl, inl, inr, Option-cases, Bool, true, false, Option, none, some, List, [], ◌∷◌, ◌++◌,
  arith, ◌==◌, ==_refl, append-nil, if◌then◌else◌,
}
use async_berkeley.Queue.{Addr, link, Task, Heap, resume, is_empty, push, pop, move_back}
use async_berkeley.Queue.Links.{
  next_of, tail_of, has, Distinct, last, Links, has-append, has-last, last-append, ne_of_has,
  Links-frame, Links-retarget, Links-append, next_of-last, Distinct-append, IsQueue,
}
use async_berkeley.Queue.Effects.{
  Pushed, Moved, Popped, is_empty-run, push-run, move_back-run, move_back_nothing, pop-run,
}

-- The call returns, with a result and a heap that satisfy `P`.
abbrev pub Returns : {A : Type 0} → Option (A × Heap) → (A → Heap → Type 0) → Type 0
Returns none P = ⊥
Returns (some (a, g)) P = P a g

pub Returns-some :
    {A : Type 0} (r : Option (A × Heap)) (P : A → Heap → Type 0)
    → Returns r P
    → (a : A) × (g : Heap) × (r ≡ some (a, g)) × P a g
Returns-some none P p = absurd p
Returns-some (some (a, g)) P p = (a, g, refl, p)

-- What a call returns is passed on.
pub Returns-resume :
    {A B : Type 0} (P : A → Heap → Type 0) (Q : B → Heap → Type 0) (r : Option (A × Heap))
    (rest : A → Heap → Option (B × Heap))
    → Returns r P
    → ((a : A) (g : Heap) → P a g → Returns (rest a g) Q)
    → Returns (resume r rest) Q
Returns-resume P Q none rest p next = absurd p
Returns-resume P Q (some (a, g)) rest p next = next a g p

-- Outside `xs` no task changes, and no handler does but at the sentinels `qs`.
pub record SameOutside (h g : Heap) (xs qs : List Addr) : Type 0 where
  pub nexts : (a : Addr) → has a xs ≡ false → next_of g a ≡ next_of h a
  pub tails : (a : Addr) → has a qs ≡ false → tail_of g a ≡ tail_of h a

abbrev is_nil : List Addr → Bool
is_nil [] = true
is_nil (x ∷ xs) = false

last-is_nil : (q : Addr) (xs : List Addr) → Distinct (q ∷ xs) → (last q xs == q) ≡ is_nil xs
last-is_nil q [] d = ==_refl q
last-is_nil q (x ∷ xs) d = ne_of_has (last x xs) q (x ∷ xs) (has-last x xs) d.0

-- A queue is empty exactly when it holds no task.
pub is_empty-IsQueue :
    {h : Heap} {q : Addr} {xs : List Addr} → IsQueue h q xs → is_empty q h ≡ some (is_nil xs, h)
is_empty-IsQueue {h} {q} {xs} i =
    ground (arith, is_empty-run h q (last q xs) i.tail, last-is_nil q xs i.distinct)

some_of_next : (h : Heap) (a b : Addr) → next_of h a ≡ some b → (n : Task) × (h a ≡ some n)
some_of_next h a b e = elim (Option-cases (h a)) [
  | inl none_there ↦ absurd (ground arith)
  | inr (n, there) ↦ (n, there)
]

module _ {h g : Heap} {q task : Addr} {xs : List Addr} (i : IsQueue h q xs)
    (new : has task (q ∷ xs) ≡ false) (p : Pushed h q task (last q xs) g) where
  Pushed-IsQueue : IsQueue g q (xs ++ task ∷ [])
  Pushed-IsQueue = record {
    links =
        Links-append g q xs task [] q
          (Links-retarget h g q xs q task i.distinct
            (λ a there other. ground (arith, p.nexts a, ne_of_has a task (q ∷ xs) there new))
            (ground (arith, p.nexts (last q xs))) i.links)
          (ground (arith, p.nexts task, ne_of_has (last q xs) task (q ∷ xs) (has-last q xs) new));
    tail = ground (arith, p.tails q, last-append q xs task []);
    distinct =
        Distinct-append (q ∷ xs) (task ∷ []) i.distinct (refl, tt)
          (λ a there. ground (arith, ne_of_has a task (q ∷ xs) there new));
  }

  Pushed-SameOutside : SameOutside h g (task ∷ q ∷ xs) (q ∷ [])
  Pushed-SameOutside = record {
    nexts = λ a o. ground (arith, p.nexts a, ne_of_has (last q xs) a (q ∷ xs) (has-last q xs));
    tails = λ a o. ground (arith, p.tails a);
  }

-- A task in no queue, pushed on a queue, stands at its end, and no other queue changes.
pub push-append :
    {h : Heap} {q : Addr} {xs : List Addr} (task : Addr) (n : Task)
    → IsQueue h q xs
    → h task ≡ some n
    → has task (q ∷ xs) ≡ false
    → Returns
        (push q task h)
        (λ _ g. IsQueue g q (xs ++ task ∷ []) × SameOutside h g (task ∷ q ∷ xs) (q ∷ []))
push-append {h} {q} {xs} task n i there new =
    let (k, last_there) = some_of_next h (last q xs) q (next_of-last h q xs q i.links) in
    let (g, runs, p) = push-run h q task (last q xs) n k i.tail there last_there (ground arith) in
    rw runs (Pushed-IsQueue i new p, Pushed-SameOutside i new p)

abbrev front : Addr → List Addr → Addr
front e [] = e
front e (x ∷ xs) = x

next_of-front :
    (h : Heap) (x : Addr) (xs : List Addr) (e : Addr)
    → Links h x xs e
    → next_of h x ≡ some (front e xs)
next_of-front h x [] e c = c
next_of-front h x (y ∷ ys) e c = c.0

module _ {h g : Heap} {q x : Addr} where
  Popped-Links :
      (xs : List Addr)
      → Popped h q (last x xs) x (front q xs) g
      → Distinct (q ∷ x ∷ xs)
      → Links h x xs q
      → Links g q xs q
  Popped-Links [] p d c = ground (arith, p.nexts q)
  Popped-Links (y ∷ ys) p d c = (
    ground (arith, p.nexts q),
    Links-frame h g y ys q (λ a there. ground (arith, p.nexts a, ne_of_has a q (y ∷ ys) there)) c.1,
  )

  Popped-tail :
      (xs : List Addr)
      → Popped h q (last x xs) x (front q xs) g
      → Distinct (q ∷ x ∷ xs)
      → tail_of h q ≡ some (link (last x xs))
      → tail_of g q ≡ some (link (last q xs))
  Popped-tail [] p d e = ground (arith, p.tails q)
  Popped-tail (y ∷ ys) p d e =
      ground (arith, p.tails q, ne_of_has (last y ys) x (y ∷ ys) (has-last y ys))

-- The task at the front leaves the queue.
pub pop-cons :
    {h : Heap} {q x : Addr} {xs : List Addr}
    → IsQueue h q (x ∷ xs)
    → Returns (pop q h) (λ a g. (a ≡ x) × IsQueue g q xs × SameOutside h g (q ∷ []) (q ∷ []))
pop-cons {h} {q} {x} {xs} i =
    let (g, runs, p) =
      pop-run h q (last x xs) x (front q xs) i.tail i.links.0 (next_of-front h x xs q i.links.1) in
    rw runs (
      refl,
      record {
        links = Popped-Links xs p i.distinct i.links.1;
        tail = Popped-tail xs p i.distinct i.tail;
        distinct = (ground arith, i.distinct.1.1);
      },
      record { nexts = λ a o. ground (arith, p.nexts a); tails = λ a o. ground (arith, p.tails a) },
    )

-- On an empty queue the sentinel itself comes back, and nothing changes.
pub pop-nil :
    {h : Heap} {q : Addr}
    → IsQueue h q []
    → Returns (pop q h) (λ a g. (a ≡ q) × IsQueue g q [] × SameOutside h g [] [])
pop-nil {h} {q} i =
    let (g, runs, p) = pop-run h q q q q i.tail i.links i.links in
    rw runs (
      refl,
      record {
        links = ground (arith, p.nexts q);
        tail = ground (arith, p.tails q);
        distinct = i.distinct;
      },
      record { nexts = λ a o. ground (arith, p.nexts a); tails = λ a o. ground (arith, p.tails a) },
    )

abbrev pub Apart : List Addr → List Addr → Type 0
Apart xs ys = (a : Addr) → has a xs ≡ true → has a ys ≡ false

module _ {h g : Heap} {q other y : Addr} {xs ys : List Addr} (i : IsQueue h q xs)
    (j : IsQueue h other (y ∷ ys)) (apart : Apart (q ∷ xs) (other ∷ y ∷ ys))
    (p : Moved h q other (last q xs) (last y ys) y q g) where
  l-apart : has (last q xs) (other ∷ y ∷ ys) ≡ false
  l-apart = apart (last q xs) (has-last q xs)

  nexts_back :
      (a : Addr)
      → has a (y ∷ ys) ≡ true
      → next_of g a ≡ (if a == last y ys then some q else next_of h a)
  nexts_back a there = ground (
    arith,
    p.nexts a,
    l-apart,
    ne_of_has a other (y ∷ ys) there j.distinct.0,
    ne_of_has a (last q xs) (y ∷ ys) there,
  )

  Moved-IsQueue : IsQueue g q (xs ++ y ∷ ys)
  Moved-IsQueue = record {
    links =
        Links-append g q xs y ys q
          (Links-retarget h g q xs q y i.distinct
            (λ a there other_than.
              ground
                (arith, p.nexts a, apart a there, ne_of_has (last y ys) a (y ∷ ys) (has-last y ys)))
            (ground (arith, p.nexts (last q xs), l-apart, ==_refl (last q xs))) i.links)
          (Links-retarget h g y ys other q j.distinct.1
            (λ a there other_than. ground (arith, nexts_back a there))
            (ground (arith, nexts_back (last y ys) (has-last y ys), ==_refl (last y ys)))
            j.links.1);
    tail = ground (arith, p.tails q, last-append q xs y ys, apart q, ==_refl q);
    distinct =
        Distinct-append (q ∷ xs) (y ∷ ys) i.distinct j.distinct.1
          (λ a there. ground (arith, apart a));
  }

  Moved-empty : IsQueue g other []
  Moved-empty = record {
    links = ground (arith, p.nexts other, ==_refl other);
    tail = ground (arith, p.tails other, ==_refl other);
    distinct = (refl, tt);
  }

  Moved-SameOutside : SameOutside h g ((q ∷ xs) ++ other ∷ y ∷ ys) (q ∷ other ∷ [])
  Moved-SameOutside = record {
    nexts = λ a o. ground (
      arith,
      p.nexts a,
      has-append a (q ∷ xs) (other ∷ y ∷ ys),
      ne_of_has (last q xs) a (q ∷ xs) (has-last q xs),
      ne_of_has (last y ys) a (y ∷ ys) (has-last y ys),
    );
    tails = λ a o. ground (arith, p.tails a);
  }

-- All tasks of the other queue go behind those of this one, in their order.
pub move_back-append :
    {h : Heap} {q other : Addr} {xs ys : List Addr}
    → IsQueue h q xs
    → IsQueue h other ys
    → Apart (q ∷ xs) (other ∷ ys)
    → Returns (move_back q other h) (λ _ g.
      IsQueue g q (xs ++ ys)
      × IsQueue g other []
      × SameOutside h g ((q ∷ xs) ++ other ∷ ys) (q ∷ other ∷ []))
move_back-append {h} {q} {other} {xs} {ys = []} i j apart =
    rw (move_back_nothing h q other j.tail, append-nil xs)
      (i, j, record { nexts = λ a o. refl; tails = λ a o. refl })
move_back-append {h} {q} {other} {xs} {ys = y ∷ ys} i j apart =
    let away = apart (last q xs) (has-last q xs) in
    let home = apart q (ground (arith, ==_refl q)) in
    let in_other = has-last y ys in
    let (g, runs, p) =
      move_back-run h q other (last q xs) (last y ys) y q i.tail j.tail
        (next_of-last h q xs q i.links) j.links.0 (next_of-last h y ys other j.links.1)
        (ne_of_has (last y ys) other (y ∷ ys) in_other j.distinct.0) (ground arith)
        (ground (arith, ne_of_has (last y ys) q (y ∷ ys) in_other)) (ground arith)
        (ground (arith, ne_of_has (last y ys) (last q xs) (y ∷ ys) in_other)) in
    rw runs (Moved-IsQueue i j apart p, Moved-empty i j apart p, Moved-SameOutside i j apart p)
