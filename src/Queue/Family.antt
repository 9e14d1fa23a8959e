-- ===== src/Queue/Family.antt =====
-- Several queues on one heap, seen as one list for each sentinel.
use async_berkeley.Base.{
  ◌≡◌, ◌∙◌, true, false, List, ◌∷◌, arith, ◌==◌, if◌then◌else◌, Bool-cases, inl, inr, ◌⊎◌,
}
use async_berkeley.Queue.{Addr, Heap}
use async_berkeley.Queue.Links.{has, Links-frame, IsQueue}
use async_berkeley.Queue.Contents.{SameOutside, Apart}

-- The tasks of the queue at each sentinel.
abbrev pub Lists : Type 0
Lists = Addr → List Addr

abbrev pub with_list : Lists → Addr → List Addr → Lists
with_list c q xs r = if r == q then xs else c r

-- The heap holds the queues at the sentinels `qs`, which share no task and no sentinel.
pub record Holds (h : Heap) (qs : List Addr) (c : Lists) : Type 0 where
  pub queue : (q : Addr) → has q qs ≡ true → IsQueue h q (c q)
  pub apart :
      (q r : Addr)
      → has q qs ≡ true
      → has r qs ≡ true
      → (q == r) ≡ false
      → Apart (q ∷ c q) (r ∷ c r)

-- A queue survives what happens outside it.
IsQueue-frame :
    {h g : Heap} {q : Addr} {xs ys qs : List Addr}
    → SameOutside h g ys qs
    → Apart (q ∷ xs) ys
    → has q qs ≡ false
    → IsQueue h q xs
    → IsQueue g q xs
IsQueue-frame {h} {g} {q} {xs} same apart out i = record {
  links = Links-frame h g q xs q (λ a there. same.nexts a (apart a there)) i.links;
  tail = same.tails q out ∙ i.tail;
  distinct = i.distinct;
}

pub Apart-sym : (xs ys : List Addr) → Apart xs ys → Apart ys xs
Apart-sym xs ys apart a there = ground (arith, apart a)

-- No two of the queues share a task or a sentinel.
abbrev pub AllApart : List Addr → Lists → Type 0
AllApart qs c =
    (q r : Addr) → has q qs ≡ true → has r qs ≡ true → (q == r) ≡ false → Apart (q ∷ c q) (r ∷ c r)

-- No other queue has the address.
abbrev pub Elsewhere : List Addr → Lists → Addr → Addr → Type 0
Elsewhere qs c q a = (r : Addr) → has r qs ≡ true → (r == q) ≡ false → has a (r ∷ c r) ≡ false

pub AllApart-with_list :
    (qs : List Addr) (c : Lists) (q : Addr) (xs : List Addr)
    → ((a : Addr) → has a (q ∷ xs) ≡ true → Elsewhere qs c q a)
    → AllApart qs c
    → AllApart qs (with_list c q xs)
AllApart-with_list qs c q xs out apart r s in_r in_s differ a there = elim (Bool-cases (r == q)) [
  | inl is_q ↦
      let s_other : (s == q) ≡ false = ground arith in
      let there' : has a (q ∷ xs) ≡ true = ground arith in rw s_other (out a there' s in_s s_other)
  | inr r_other ↦
      let old : has a (r ∷ c r) ≡ true = rw r_other at there in
      elim (Bool-cases (s == q)) [
        | inl is_q ↦
            let absent : has a (q ∷ xs) ≡ true → ⊥ =
              λ new. ground (arith, out a new r in_r r_other) in
            elim (Bool-cases (has a (q ∷ xs))) [
              | inl new ↦ absurd (absent new)
              | inr gone ↦ ground arith
            ]
        | inr s_other ↦ rw s_other (apart r s in_r in_s differ a old)
      ]
]

pub Holds-change :
    {h g : Heap} {ys ts : List Addr} (qs : List Addr) (c c' : Lists)
    → Holds h qs c
    → SameOutside h g ys ts
    → ((r : Addr)
        → has r qs ≡ true
        → IsQueue g r (c' r) ⊎ ((has r ts ≡ false) × (c' r ≡ c r) × Apart (r ∷ c r) ys))
    → AllApart qs c'
    → Holds g qs c'
Holds-change {h} {g} qs c c' k same each apart = record {
  queue = λ r in_r. elim (each r in_r) [
    | inl i ↦ i
    | inr (out, kept, away) ↦ rw kept (IsQueue-frame same away out (k.queue r in_r))
  ];
  apart = apart;
}
