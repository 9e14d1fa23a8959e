-- ===== src/Socket/Option/Order.antt =====
-- The order of the options: by size, then by their bytes.
use Prim.Native.Nat.{Ordering, compare}
use async_berkeley.Base.{
  ℕ, ◌≤◌, ◌≡◌, ◌↔◌, refl, sym, ap, ◌∙◌, true, some, some_inj, List, [], ◌∷◌, length, take,
  length-take, ◌==◌, if◌then◌else◌, arith,
}
use async_berkeley.Socket.Option.{
  SocketOption, memcmp, contents, compare_options, equal_options, is_eq,
}

memcmp_refl : (xs : List ℕ) → memcmp xs xs ≡ Ordering.eq
unfolding memcmp
memcmp_refl [] = refl
memcmp_refl (x ∷ xs) = ground (arith, memcmp_refl xs)

memcmp-eq : (xs ys : List ℕ) → memcmp xs ys ≡ Ordering.eq → xs ≡ ys
unfolding memcmp
memcmp-eq [] [] h = refl
memcmp-eq [] (y ∷ ys) h = ground arith
memcmp-eq (x ∷ xs) [] h = ground arith
memcmp-eq (x ∷ xs) (y ∷ ys) h = ground (arith, memcmp-eq xs ys)

memcmp-flip : (xs ys : List ℕ) → memcmp xs ys ≡ Ordering.gt → memcmp ys xs ≡ Ordering.lt
unfolding memcmp
memcmp-flip [] [] h = ground arith
memcmp-flip [] (y ∷ ys) h = ground arith
memcmp-flip (x ∷ xs) [] h = refl
memcmp-flip (x ∷ xs) (y ∷ ys) h = ground (arith, memcmp-flip xs ys)

memcmp-flip_back : (xs ys : List ℕ) → memcmp ys xs ≡ Ordering.lt → memcmp xs ys ≡ Ordering.gt
unfolding memcmp
memcmp-flip_back [] [] h = ground arith
memcmp-flip_back [] (y ∷ ys) h = ground arith
memcmp-flip_back (x ∷ xs) [] h = refl
memcmp-flip_back (x ∷ xs) (y ∷ ys) h = ground (arith, memcmp-flip_back xs ys)

memcmp_trans :
    (xs ys zs : List ℕ)
    → memcmp xs ys ≡ Ordering.lt
    → memcmp ys zs ≡ Ordering.lt
    → memcmp xs zs ≡ Ordering.lt
unfolding memcmp
memcmp_trans [] [] zs h k = ground arith
memcmp_trans [] (y ∷ ys) [] h k = ground arith
memcmp_trans [] (y ∷ ys) (z ∷ zs) h k = refl
memcmp_trans (x ∷ xs) [] zs h k = ground arith
memcmp_trans (x ∷ xs) (y ∷ ys) [] h k = ground arith
memcmp_trans (x ∷ xs) (y ∷ ys) (z ∷ zs) h k = ground (arith, memcmp_trans xs ys zs)

-- The size of an option is within its storage.
pub record IsWithin (o : SocketOption) : Type 0 where
  pub within : o.size ≤ length o.storage

-- The bytes of an option whose size is within its storage.
unfoldable pub prefix : SocketOption → List ℕ
prefix o = take o.size o.storage

contents-prefix : (o : SocketOption) → IsWithin o → contents o ≡ some (prefix o)
unfolding contents prefix
contents-prefix o w = ground arith

-- operator<=> where both options are within their storage.
ordering : SocketOption → SocketOption → Ordering
ordering a b = if a.size == b.size then memcmp (prefix a) (prefix b) else compare a.size b.size

compare_options-ordering :
    (a b : SocketOption) → IsWithin a → IsWithin b → compare_options a b ≡ some (ordering a b)
unfolding compare_options ordering
compare_options-ordering a b v w = rw (contents-prefix a v, contents-prefix b w) (ground arith)

equal_options-ordering :
    (a b : SocketOption) → IsWithin a → IsWithin b → equal_options a b ≡ some (is_eq (ordering a b))
unfolding equal_options ordering
equal_options-ordering a b v w = rw (contents-prefix a v, contents-prefix b w) (ground arith)

ordering-eq :
    (a b : SocketOption)
    → IsWithin a
    → IsWithin b
    → (ordering a b ≡ Ordering.eq) ↔ (prefix a ≡ prefix b)
unfolding ordering
ordering-eq a b v w =
    let p : length (prefix a) ≡ a.size = unfold prefix in length-take a.size a.storage v.within in
    let q : length (prefix b) ≡ b.size = unfold prefix in length-take b.size b.storage w.within in
    (
      λ h. ground (arith, memcmp-eq (prefix a) (prefix b)),
      λ h.
          let l : length (prefix a) ≡ length (prefix b) = ap length h in
          let e : (a.size == b.size) ≡ true = ground arith in rw e (rw h (memcmp_refl (prefix b))),
    )

ordering-flip : (a b : SocketOption) → (ordering a b ≡ Ordering.gt) ↔ (ordering b a ≡ Ordering.lt)
unfolding ordering
ordering-flip a b = (
  λ h. ground (arith, memcmp-flip (prefix a) (prefix b)),
  λ h. ground (arith, memcmp-flip_back (prefix a) (prefix b)),
)

is_eq_lem : (o : Ordering) → is_eq o ≡ true → o ≡ Ordering.eq
is_eq_lem Ordering.lt h = ground arith
is_eq_lem Ordering.eq h = refl
is_eq_lem Ordering.gt h = ground arith

-- Options whose sizes are within their storage are equal, for `operator==` and for `operator<=>`, exactly
-- if their bytes are the same; and one is greater exactly if the other is less.
pub compare_options-contents :
    (a b : SocketOption)
    → IsWithin a
    → IsWithin b
    → ((equal_options a b ≡ some true) ↔ (contents a ≡ contents b))
      × ((compare_options a b ≡ some Ordering.eq) ↔ (contents a ≡ contents b))
      × ((compare_options a b ≡ some Ordering.gt) ↔ (compare_options b a ≡ some Ordering.lt))
compare_options-contents a b v w =
    let (there, back) = ordering-eq a b v w in
    let (flip, flip_back) = ordering-flip a b in
    rw
      (
        compare_options-ordering a b v w,
        compare_options-ordering b a w v,
        equal_options-ordering a b v w,
        contents-prefix a v,
        contents-prefix b w,
      )
      (
        (
          λ h. ap some (there (is_eq_lem (ordering a b) (some_inj h))),
          λ h. ap (λ o. some (is_eq o)) (back (some_inj h)),
        ),
        (λ h. ap some (there (some_inj h)), λ h. ap some (back (some_inj h))),
        (λ h. ap some (flip (some_inj h)), λ h. ap some (flip_back (some_inj h))),
      )

-- The order of options within their storage is transitive.
pub compare_options_trans :
    (a b c : SocketOption)
    → IsWithin a
    → IsWithin b
    → IsWithin c
    → compare_options a b ≡ some Ordering.lt
    → compare_options b c ≡ some Ordering.lt
    → compare_options a c ≡ some Ordering.lt
unfolding ordering
compare_options_trans a b c u v w h k =
    let p = some_inj (sym (compare_options-ordering a b u v) ∙ h) in
    let q = some_inj (sym (compare_options-ordering b c v w) ∙ k) in
    compare_options-ordering a c u w
    ∙ ap some (ground (arith, memcmp_trans (prefix a) (prefix b) (prefix c)))
