-- ===== src/Executor.antt =====
-- `push` and `emplace` of include/io/execution/executor.hpp, and those of
-- include/io/execution/triggers.hpp, which make a dialog of the handle. The handles are those of
-- Socket.Handle; a shared pointer is the address of its handle.
pub mod Loop
pub mod Flags
pub mod Emplace
pub mod Nonblocking
pub mod Examples
use Prim.Native.Nat.{◌/◌}
use async_berkeley.Base.{
  ℕ, ◌+◌, ◌-◌, ◌%◌, ◌^◌, Option, none, some, false, ℤ, pos, negsuc, int_eq, get_elem?, ◌==◌,
  if◌then◌else◌, ◌>>=◌,
}
use async_berkeley.Socket.Handle.{
  Store, Constructed, constructed, system_error, from_native, from_socket, move_construct, destroy,
}
use async_berkeley.Socket.Dialog.{Dialog}

-- fcntl(fd, F_GETFL), fcntl(fd, F_SETFL, flags) and `errno`, over the states `W` of the operating
-- system, and the bit of O_NONBLOCK.
pub record Fcntl (W : Type 0) : Type 0 where
  pub getfl : ℤ → W → ℤ × W
  pub setfl : ℤ → ℤ → W → ℤ × W
  pub errno : W → ℤ
  pub nonblock : ℕ

-- The bit `k` of a number.
abbrev pub bit : ℕ → ℕ → ℕ
bit k n = n / 2 ^ k % 2

-- `flags | O_NONBLOCK`, of an `int` in two's complement.
unfoldable pub or_bit : ℕ → ℤ → ℤ
or_bit k (pos n) = if bit k n == 1 then pos n else pos (n + 2 ^ k)
or_bit k (negsuc n) = if bit k n == 1 then negsuc (n - 2 ^ k) else negsuc n

-- How `push` ends: with the address of the handle, or with an exception and its error number, which
-- the constructor of a handle does not name here. `invalid` is an address without a handle.
pub data Pushed (W : Type 0) : Type 0 where
  pushed : ℕ → Store → W → Pushed W
  threw : Option ℤ → Store → W → Pushed W
  invalid : Pushed W

module _ {W : Type 0} where
  -- What follows where a destructor runs on the way out.
  unfoldable pub destroying : ℕ → Pushed W → Pushed W
  destroying this (pushed p s w) = elim (destroy this s) [
    | none ↦ invalid
    | some s' ↦ pushed p s' w
  ]
  destroying this (threw e s w) = elim (destroy this s) [ none ↦ invalid | some s' ↦ threw e s' w ]
  destroying this invalid = invalid

module _ {W : Type 0} (F : Fcntl W) where
  -- push(std::shared_ptr<Socket>). Where it throws, the handle is left to its other owners.
  unfoldable pub push_shared : ℕ → Store → W → Pushed W
  unfolding or_bit
  push_shared this s w = elim (get_elem? s.handles this) [
    | none ↦ invalid
    | some h ↦
        let (flags, w₁) = F.getfl h.socket w in
        let (ret, w₂) = F.setfl h.socket (or_bit F.nonblock flags) w₁ in
        if int_eq ret (pos 0) then pushed this s w₂ else threw (some (F.errno w₂)) s w₂
  ]

  -- An exception destroys the handle that is owned by no other pointer.
  unfoldable pub unwind : ℕ → Pushed W → Pushed W
  unfolding destroying
  unwind this (pushed p s w) = pushed p s w
  unwind this (threw e s w) = destroying this (threw e s w)
  unwind this invalid = invalid

  -- push(Socket &&): std::make_shared moves the handle.
  unfoldable pub push_handle : ℕ → Store → W → Pushed W
  unfolding push_shared unwind
  push_handle handle s w = elim (move_construct handle s) [
    | none ↦ invalid
    | some (this, s') ↦ unwind this (push_shared this s' w)
  ]

  -- emplace, given what the constructor of the temporary handle does, which is destroyed at the end.
  unfoldable pub emplace : Constructed → Store → W → Pushed W
  unfolding push_handle destroying
  emplace (constructed this s') s w = destroying this (push_handle this s' w)
  emplace system_error s w = threw none s w

  -- basic_triggers::emplace: the dialog of the new handle and of an executor that lives.
  unfoldable pub emplace_dialog : Constructed → Store → W → Option (Dialog × Store × W)
  unfolding emplace
  emplace_dialog c s w = elim (emplace c s w) [
    | pushed this s' w' ↦ get_elem? s'.handles this >>= λ h.
        some (record { is_expired = false; socket = some h }, s', w')
    | threw e s' w' ↦ none
    | invalid ↦ none
  ]

  -- basic_triggers::push of a shared pointer: the dialog of its handle.
  unfoldable pub push_dialog : ℕ → Store → W → Option (Dialog × Store × W)
  unfolding push_shared
  push_dialog socket s w = elim (push_shared socket s w) [
    | pushed this s' w' ↦ get_elem? s'.handles this >>= λ h.
        some (record { is_expired = false; socket = some h }, s', w')
    | threw e s' w' ↦ none
    | invalid ↦ none
  ]
