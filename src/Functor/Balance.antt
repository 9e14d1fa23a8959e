-- ===== src/Functor/Balance.antt =====
-- The invariant of a memory of functors, and how a change of one functor or two keeps it.
use async_berkeley.Base.{
  ℕ, zero, suc, ◌+◌, ◌≡◌, refl, ap, subst, ◌∙◌, false, Option, none, some, List, [], ◌∷◌, ◌++◌,
  get_elem?, set, All, ◌==◌, arith, get_elem?-set, some_inj,
}
use async_berkeley.Functor.{Storage, Functor, Counts, Memory, functor_at}
use async_berkeley.Functor.Moves.{type_of, holding, weight}

module _ {V : Type 0} where
  -- A functor with the table of the callable that it holds, or none where it holds none.
  abbrev pub IsHolding : Option (Functor V) → Type 0
  IsHolding none = Unit
  IsHolding (some f) = f.vptr ≡ type_of f.storage

  abbrev pub cell_weight : Option (Functor V) → ℕ
  cell_weight none = 0
  cell_weight (some f) = weight f.storage

  -- The callables that are alive.
  unfoldable pub alive : List (Option (Functor V)) → ℕ
  alive [] = 0
  alive (cell ∷ cells) = cell_weight cell + alive cells

  -- Each functor holds what its table says, and the callables that were made are alive or destroyed.
  pub record Balanced (m : Memory V) : Type 0 where
    pub holds : All IsHolding m.functors
    pub counted : m.counts.made ≡ m.counts.destroyed + alive m.functors

  pub IsHolding-get_elem? :
      (cells : List (Option (Functor V))) (i : ℕ) (f : Functor V)
      → All IsHolding cells
      → get_elem? cells i ≡ some (some f)
      → f ≡ holding f.storage
  IsHolding-get_elem? [] i f h e = absurd (ground arith)
  IsHolding-get_elem? (c ∷ cs) zero f (h, hs) e =
      let same : c ≡ some f = ground arith in
      let p : IsHolding (some f) = subst IsHolding same h in
      ap (λ v. record { storage = f.storage; vptr = v }) p
  IsHolding-get_elem? (c ∷ cs) (suc i) f (h, hs) e = IsHolding-get_elem? cs i f hs e

  pub IsHolding-set :
      (cells : List (Option (Functor V))) (i : ℕ) (cell : Option (Functor V))
      → All IsHolding cells
      → IsHolding cell
      → All IsHolding (set cells i cell)
  IsHolding-set [] i cell h p = tt
  IsHolding-set (c ∷ cs) zero cell (h, hs) p = (p, hs)
  IsHolding-set (c ∷ cs) (suc i) cell (h, hs) p = (h, IsHolding-set cs i cell hs p)

  pub IsHolding-append :
      (cells : List (Option (Functor V))) (cell : Option (Functor V))
      → All IsHolding cells
      → IsHolding cell
      → All IsHolding (cells ++ cell ∷ [])
  IsHolding-append [] cell h p = (p, tt)
  IsHolding-append (c ∷ cs) cell (h, hs) p = (h, IsHolding-append cs cell hs p)

  pub alive-set :
      (cells : List (Option (Functor V))) (i : ℕ) (old cell : Option (Functor V))
      → get_elem? cells i ≡ some old
      → alive (set cells i cell) + cell_weight old ≡ alive cells + cell_weight cell
  unfolding alive
  alive-set [] i old cell e = absurd (ground arith)
  alive-set (c ∷ cs) zero old cell e = let same = ap cell_weight (some_inj e) in omega arith
  alive-set (c ∷ cs) (suc i) old cell e = omega (arith, alive-set cs i old cell e)

  pub alive-append :
      (cells : List (Option (Functor V))) (cell : Option (Functor V))
      → alive (cells ++ cell ∷ []) ≡ alive cells + cell_weight cell
  unfolding alive
  alive-append [] cell = omega arith
  alive-append (c ∷ cs) cell = omega (arith, alive-append cs cell)

  functor_at-some :
      (i : ℕ) (m : Memory V) (f : Functor V)
      → functor_at i m ≡ some f
      → get_elem? m.functors i ≡ some (some f)
  unfolding functor_at
  functor_at-some i m f h = ground arith

  -- A functor at an address holds what its table says.
  pub functor_at-holding :
      (i : ℕ) (m : Memory V) (f : Functor V)
      → Balanced m
      → functor_at i m ≡ some f
      → (functor_at i m ≡ some (holding f.storage))
        × (get_elem? m.functors i ≡ some (some (holding f.storage)))
  functor_at-holding i m f b h =
      let e = IsHolding-get_elem? m.functors i f b.holds (functor_at-some i m f h) in
      (h ∙ ap some e, functor_at-some i m f h ∙ ap (λ g. some (some g)) e)

  pub Balanced-set :
      (i : ℕ) (m : Memory V) (s t : Storage V) (c : Counts)
      → Balanced m
      → get_elem? m.functors i ≡ some (some (holding s))
      → c.made + m.counts.destroyed + weight s ≡ c.destroyed + m.counts.made + weight t
      → Balanced (record { functors = set m.functors i (some (holding t)); counts = c })
  Balanced-set i m s t c b h e = record {
    holds = IsHolding-set m.functors i (some (holding t)) b.holds refl;
    counted =
        omega (arith, b.counted, alive-set m.functors i (some (holding s)) (some (holding t)) h);
  }

  pub Balanced-removed :
      (i : ℕ) (m : Memory V) (s : Storage V) (c : Counts)
      → Balanced m
      → get_elem? m.functors i ≡ some (some (holding s))
      → c.made + m.counts.destroyed + weight s ≡ c.destroyed + m.counts.made
      → Balanced (record { functors = set m.functors i none; counts = c })
  Balanced-removed i m s c b h e = record {
    holds = IsHolding-set m.functors i none b.holds tt;
    counted = omega (arith, b.counted, alive-set m.functors i (some (holding s)) none h);
  }

  pub Balanced-append :
      (m : Memory V) (t : Storage V) (c : Counts)
      → Balanced m
      → c.made + m.counts.destroyed ≡ c.destroyed + m.counts.made + weight t
      → Balanced (record { functors = m.functors ++ some (holding t) ∷ []; counts = c })
  Balanced-append m t c b e = record {
    holds = IsHolding-append m.functors (some (holding t)) b.holds refl;
    counted = omega (arith, b.counted, alive-append m.functors (some (holding t)));
  }

  -- An exchange of what two functors hold.
  pub Balanced-exchanged :
      (i j : ℕ) (m : Memory V) (s t : Storage V) (c : Counts)
      → Balanced m
      → get_elem? m.functors i ≡ some (some (holding s))
      → get_elem? m.functors j ≡ some (some (holding t))
      → (i == j) ≡ false
      → c.made + m.counts.destroyed ≡ c.destroyed + m.counts.made
      → Balanced (record {
        functors = set (set m.functors i (some (holding t))) j (some (holding s));
        counts = c;
      })
  Balanced-exchanged i j m s t c b p q e balance =
      let still : get_elem? (set m.functors i (some (holding t))) j ≡ some (some (holding t)) =
        get_elem?-set m.functors i j (some (holding s)) (some (holding t)) p ∙ rw e q in
      let first = IsHolding-set m.functors i (some (holding t)) b.holds refl in
      record {
        holds = IsHolding-set (set m.functors i (some (holding t))) j (some (holding s)) first refl;
        counted = omega (
          arith,
          b.counted,
          alive-set m.functors i (some (holding s)) (some (holding t)) p,
          alive-set (set m.functors i (some (holding t))) j (some (holding t)) (some (holding s))
              still,
        );
      }
