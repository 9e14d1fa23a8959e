-- ===== src/Queue/Links.antt =====
-- The chains of `next` pointers that run from a sentinel through its tasks and back.
use async_berkeley.Base.{
  ◌≡◌, refl, Bool, true, false, ◌||◌, Option, none, some, List, [], ◌∷◌, ◌++◌, arith, ◌==◌, ==_refl,
}
use async_berkeley.Queue.{Addr, Tail, link, Heap}

abbrev pub next_of : Heap → Addr → Option Addr
next_of h a = elim (h a) [ none ↦ none | some n ↦ some n.next ]

abbrev pub tail_of : Heap → Addr → Option Tail
tail_of h a = elim (h a) [ none ↦ none | some n ↦ some n.tail ]

abbrev pub has : Addr → List Addr → Bool
has a [] = false
has a (x ∷ xs) = (a == x) || has a xs

abbrev pub Distinct : List Addr → Type 0
Distinct [] = Unit {0}
Distinct (x ∷ xs) = (has x xs ≡ false) × Distinct xs

abbrev pub last : Addr → List Addr → Addr
last x [] = x
last x (y ∷ ys) = last y ys

-- From the task at `x` the `next` pointers lead through `xs` to `e`.
abbrev pub Links : Heap → Addr → List Addr → Addr → Type 0
Links h x [] e = next_of h x ≡ some e
Links h x (y ∷ ys) e = (next_of h x ≡ some y) × Links h y ys e

pub has-append : (a : Addr) (xs ys : List Addr) → has a (xs ++ ys) ≡ (has a xs || has a ys)
has-append a [] ys = refl
has-append a (x ∷ xs) ys = ground (arith, has-append a xs ys)

pub has-last : (x : Addr) (xs : List Addr) → has (last x xs) (x ∷ xs) ≡ true
has-last x [] = ground arith
has-last x (y ∷ ys) = ground (arith, has-last y ys)

pub last-append :
    (x : Addr) (xs : List Addr) (y : Addr) (ys : List Addr) → last x (xs ++ y ∷ ys) ≡ last y ys
last-append x [] y ys = refl
last-append x (z ∷ zs) y ys = last-append z zs y ys

pub ne_of_has :
    (a b : Addr) (xs : List Addr) → has a xs ≡ true → has b xs ≡ false → (a == b) ≡ false
ne_of_has a b [] i o = ground arith
ne_of_has a b (x ∷ xs) i o = ground (arith, ne_of_has a b xs)

module _ (h g : Heap) where
  -- A chain survives changes elsewhere.
  pub Links-frame :
      (x : Addr) (xs : List Addr) (e : Addr)
      → ((a : Addr) → has a (x ∷ xs) ≡ true → next_of g a ≡ next_of h a)
      → Links h x xs e
      → Links g x xs e
  Links-frame x [] e same c = ground (arith, same x, ==_refl x)
  Links-frame x (y ∷ ys) e same c =
      (ground (arith, same x, ==_refl x), Links-frame y ys e (λ a i. same a (ground arith)) c.1)

  -- A chain whose last pointer alone is changed leads to the new end.
  pub Links-retarget :
      (x : Addr) (xs : List Addr) (e e' : Addr)
      → Distinct (x ∷ xs)
      → ((a : Addr) → has a (x ∷ xs) ≡ true → (a == last x xs) ≡ false → next_of g a ≡ next_of h a)
      → next_of g (last x xs) ≡ some e'
      → Links h x xs e
      → Links g x xs e'
  Links-retarget x [] e e' d same new c = new
  Links-retarget x (y ∷ ys) e e' d same new c = (
    ground (arith, same x, ==_refl x, ne_of_has (last y ys) x (y ∷ ys), has-last y ys),
    Links-retarget y ys e e' d.1 (λ a i. same a (ground arith)) new c.1,
  )

pub Links-append :
    (h : Heap) (x : Addr) (xs : List Addr) (y : Addr) (ys : List Addr) (e : Addr)
    → Links h x xs y
    → Links h y ys e
    → Links h x (xs ++ y ∷ ys) e
Links-append h x [] y ys e c d = (c, d)
Links-append h x (z ∷ zs) y ys e c d = (c.0, Links-append h z zs y ys e c.1 d)

-- The last pointer of a chain is its end.
pub next_of-last :
    (h : Heap) (x : Addr) (xs : List Addr) (e : Addr)
    → Links h x xs e
    → next_of h (last x xs) ≡ some e
next_of-last h x [] e c = c
next_of-last h x (y ∷ ys) e c = next_of-last h y ys e c.1

pub Distinct-append :
    (xs ys : List Addr)
    → Distinct xs
    → Distinct ys
    → ((a : Addr) → has a xs ≡ true → has a ys ≡ false)
    → Distinct (xs ++ ys)
Distinct-append [] ys d e apart = e
Distinct-append (x ∷ xs) ys d e apart = (
  ground (arith, has-append x xs ys, apart x, ==_refl x),
  Distinct-append xs ys d.1 e (λ a i. apart a (ground arith)),
)

-- A heap holds the queue `xs` at the sentinel `q`: the pointers run from `q` through the distinct
-- tasks `xs` back to `q`, whose `tail` points to the last of them, or to `q` if there is none.
pub record IsQueue (h : Heap) (q : Addr) (xs : List Addr) : Type 0 where
  pub links : Links h q xs q
  pub tail : tail_of h q ≡ some (link (last q xs))
  pub distinct : Distinct (q ∷ xs)
