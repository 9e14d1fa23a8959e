-- ===== src/Async/Eager.antt =====
-- What becomes of an operation that is tried at once, and how often none is.
use Prim.Native.Nat.{◌/◌}
use async_berkeley.Base.{
  ℕ, zero, suc, ◌+◌, ◌%◌, ◌^◌, ◌<◌, ◌≡◌, refl, ap, ◌∙◌, sym, subst, true, false, Option, none, some,
  [], ◌∷◌, ◌++◌, ℤ, ◌==◌, if◌then◌else◌, arith, Bool-cases, Option-cases, inl, inr,
}
use async_berkeley.Poll.Interest.{Trigger, eager}
use async_berkeley.Poll.Mux.{
  Platform, Op, Mux, World, Signal, set_value, set_error, with_error, is_failing, complete, start,
}
use async_berkeley.Async.{next_counter, Submitted, make_sender, after_failure, submit}

-- How many of `n` operations in a row, the first of which finds `counter`, are not tried at once.
unfoldable pub skipped : ℕ → ℕ → ℕ
unfolding next_counter
skipped counter zero = 0
skipped counter (suc n) =
    (if next_counter counter == 0 then 1 else 0) + skipped (next_counter counter) n

-- Of any 256 operations in a row exactly one leaves out the attempt, and so on for longer runs.
pub skipped_lem : (counter n : ℕ) → counter < 2 ^ 8 → skipped counter n ≡ (counter + n) / 256
unfolding skipped next_counter
skipped_lem counter zero h = omega arith
skipped_lem counter (suc n) h = ground (arith, skipped_lem ((counter + 1) % 2 ^ 8) n (omega arith))

module _ {W R : Type 0} (P : Platform W) where
  -- The signal for a result of the attempt, after which the system is in state `os`; `none` if the
  -- operation is to wait.
  unfoldable pub eager_signal : ℕ → ℤ → W → Option R → Option (Signal R)
  eager_signal receiver stale os (some v) =
      some (if is_failing P stale then set_error receiver stale else set_value receiver v)
  eager_signal receiver stale os none =
      if is_failing P (P.errno os) then some (set_error receiver (P.errno os)) else none

  -- A sender that sends its signal when it is started, or one that waits for its trigger.
  unfoldable pub Delivers :
      Op W R → Submitted W R → World W R → Mux W R → Option (Signal R) → Type 0
  Delivers later s w m (some x) =
      (w' : World W R) × (start P s.sender m s.world ≡ some (m, w'))
      × (w'.signals ≡ w.signals ++ x ∷ [])
  Delivers later s w m none = s.sender ≡ later

  complete-bad :
      (op : Op W R) (w : World W R)
      → is_failing P (w.errors op.socket) ≡ true
      → complete P op w
        ≡ record w { signals = w.signals ++ set_error op.receiver (w.errors op.socket) ∷ [] }
  unfolding complete
  complete-bad op w bad = rw bad refl

  errors-with_error : (k : ℕ) (e : ℤ) (w : World W R) → (with_error k e w).errors k ≡ e
  unfolding with_error
  errors-with_error k e w = ground arith

  module _ (null_call : W → Option R × W) (receiver socket : ℕ) (trigger : Trigger)
      (f : W → Option R × W) where
    bad_sender : ℕ → World W R → Submitted W R
    bad_sender counter w = record {
      sender = make_sender receiver socket eager null_call;
      counter = counter;
      world = with_error socket (P.errno w.os) w;
    }

    after_failure-bad_sender :
        (counter : ℕ) (w : World W R)
        → is_failing P (P.errno w.os) ≡ true
        → after_failure P null_call receiver socket trigger f counter w ≡ bad_sender counter w
    unfolding after_failure with_error bad_sender
    after_failure-bad_sender counter w bad =
        let same : (socket == socket) ≡ true = ground arith in
        rw (after_failure, with_error, same, bad) refl

    after_failure-bad :
        (counter : ℕ) (w : World W R) (m : Mux W R)
        → is_failing P (P.errno w.os) ≡ true
        → (w' : World W R) × (start P
              (after_failure P null_call receiver socket trigger f counter w).sender
              m
              (after_failure P null_call receiver socket trigger f counter w).world
            ≡ some (m, w'))
          × (w'.signals ≡ w.signals ++ set_error receiver (P.errno w.os) ∷ [])
    unfolding start make_sender bad_sender with_error
    after_failure-bad counter w m bad =
        let e = P.errno w.os in
        let w' = with_error socket e w in
        let kept = errors-with_error socket e w in
        let op = make_sender receiver socket eager null_call in
        let failing : is_failing P (w'.errors socket) ≡ true = ap (is_failing P) kept ∙ bad in
        subst
          (λ s.
            (w'' : World W R) × (start P s.sender m s.world ≡ some (m, w''))
            × (w''.signals ≡ w.signals ++ set_error receiver e ∷ []))
          (sym (after_failure-bad_sender counter w bad))
          (
            _,
            ap (λ x. some (m, x)) (complete-bad op w' failing),
            ap (λ x. w.signals ++ set_error receiver x ∷ []) kept,
          )

    after_failure-fine :
        (counter : ℕ) (w : World W R)
        → is_failing P (P.errno w.os) ≡ false
        → (after_failure P null_call receiver socket trigger f counter w).sender
          ≡ make_sender receiver socket trigger f
    unfolding after_failure with_error
    after_failure-fine counter w fine =
        let same : (socket == socket) ≡ true = ground arith in
        rw (after_failure, with_error, same, fine) refl

  -- An operation that is tried at once makes one attempt. If it succeeds, the sender sends its value when
  -- it is started, unless the handle has an error of an earlier operation, which it sends in its place. If
  -- it fails, the sender sends the error, or waits where the call would block. The empty functor is called
  -- in no case.
  pub submit-Delivers :
      (null_call : W → Option R × W) (receiver socket : ℕ) (trigger : Trigger)
      (attempt f : W → Option R × W) (counter : ℕ) (w : World W R) (m : Mux W R)
      → (next_counter counter == 0) ≡ false
      → Delivers
          (make_sender receiver socket trigger f)
          (submit P null_call true receiver socket trigger attempt f counter w)
          w
          m
          (eager_signal receiver (w.errors socket) (attempt w.os).1 (attempt w.os).0)
  unfolding Delivers eager_signal submit start make_sender complete after_failure with_error
  submit-Delivers null_call receiver socket trigger attempt f counter w m h =
      elim (Option-cases (attempt w.os).0) [
        | inl failed ↦ elim (Bool-cases (is_failing P (P.errno (attempt w.os).1))) [
          | inl bad ↦
              rw (h, failed, bad)
                (after_failure-bad null_call receiver socket trigger f (next_counter counter)
                  (record w { os = (attempt w.os).1 }) m bad)
          | inr fine ↦
              rw (h, failed, fine)
                (after_failure-fine null_call receiver socket trigger f (next_counter counter)
                  (record w { os = (attempt w.os).1 }) fine)
        ]
        | inr (v, done) ↦ elim (Bool-cases (is_failing P (w.errors socket))) [
          | inl bad ↦ rw (h, done, bad) (_, refl, refl)
          | inr fine ↦ rw (h, done, fine) (_, refl, refl)
        ]
      ]
