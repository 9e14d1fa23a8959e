-- ===== src/Executor/Nonblocking.antt =====
-- An emplaced handle does not block.
use async_berkeley.Base.{
  ℕ, suc, ◌≡◌, sym, ap, ◌∙◌, false, some, ℤ, pos, int_eq, int_eq_iff, get_elem?, length, arith,
  Bool-cases, inl, inr, subst,
}
use async_berkeley.Socket.Handle.{invalid_socket, Store, from_native}
use async_berkeley.Executor.{Fcntl, pushed, emplace, or_bit}
use async_berkeley.Executor.Flags.{SetsBit, or_bit-SetsBit}
use async_berkeley.Executor.Emplace.{
  set_flags, owner, outcome, moved, with_two, get_elem?-second, emplace-outcome,
}

-- What fcntl(2) documents: F_GETFL returns the status flags of an open descriptor, and F_SETFL, where
-- it returns 0, has set the O_NONBLOCK flag as it is told.
pub record Documented {W : Type 0} (F : Fcntl W) (status : ℤ → W → ℕ) : Type 0 where
  pub get : (fd : ℤ) (w : W) → F.getfl fd w ≡ (pos (status fd w), w)
  pub sets :
      (fd : ℤ) (x : ℕ) (w : W)
      → SetsBit F.nonblock (status fd w) x
      → (F.setfl fd (pos x) w).0 ≡ pos 0
      → status fd (F.setfl fd (pos x) w).1 ≡ x

module _ {W : Type 0} (F : Fcntl W) (status : ℤ → W → ℕ) where
  set_flags-SetsBit :
      (fd : ℤ) (w : W)
      → Documented F status
      → (set_flags F fd w).0 ≡ pos 0
      → SetsBit F.nonblock (status fd w) (status fd (set_flags F fd w).1)
  set_flags-SetsBit fd w d ok =
      let (x, asked, bits) = or_bit-SetsBit F.nonblock (status fd w) in
      let same : set_flags F fd w ≡ F.setfl fd (pos x) w =
        ap (λ (g : ℤ × W). F.setfl fd (or_bit F.nonblock g.0) g.1) (d.get fd w)
        ∙ ap (λ y. F.setfl fd y w) asked in
      let now : status fd (set_flags F fd w).1 ≡ x =
        ap (λ (y : ℤ × W). status fd y.1) same
        ∙ d.sets fd x w bits (sym (ap (λ (y : ℤ × W). y.0) same) ∙ ok) in
      subst (SetsBit F.nonblock (status fd w)) (sym now) bits

  -- With a kernel that keeps to the documentation of fcntl, the handle that emplace returns owns the
  -- descriptor, whose O_NONBLOCK flag is set and whose other status flags are as they were.
  pub emplace-nonblocking :
      (fd : ℤ) (s s' : Store) (w w' : W) (this : ℕ)
      → Documented F status
      → int_eq fd invalid_socket ≡ false
      → emplace F (from_native (pos 0) fd s) s w ≡ pushed this s' w'
      → (get_elem? s'.handles this ≡ some (owner F fd))
        × SetsBit F.nonblock (status fd w) (status fd w')
  emplace-nonblocking fd s s' w w' this d valid e =
      let e' : outcome F fd s w ≡ pushed this s' w' = sym (emplace-outcome F fd s w valid).0 ∙ e in
      elim (Bool-cases (int_eq (set_flags F fd w).0 (pos 0))) [
        | inl ok ↦
            let at_this : suc (length s.handles) ≡ this = ground arith in
            let store : with_two moved (owner F fd) s ≡ s' = ground arith in
            let world : (set_flags F fd w).1 ≡ w' = ground arith in
            (
              rw (← at_this, ← store) (get_elem?-second s.handles moved (owner F fd)),
              rw (← world)
                  (set_flags-SetsBit fd w d ((int_eq_iff (set_flags F fd w).0 (pos 0)).0 ok)),
            )
        | inr bad ↦ absurd (ground arith)
      ]
