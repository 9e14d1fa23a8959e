-- ===== src/Poll/Flags.antt =====
-- The event masks of `struct pollfd`. The numeric values of the flags are the platform's, so a mask
-- is the set of the five flags that the program names.
use async_berkeley.Base.{ℤ, Bool, false, ◌&&◌, ◌||◌, not, ◌≡◌, refl, arith}

pub record Flags : Type 0 where
  pub pollin : Bool
  pub pollout : Bool
  pub pollerr : Bool
  pub pollhup : Bool
  pub pollnval : Bool

pub record Pollfd : Type 0 where
  pub fd : ℤ
  pub events : Flags
  pub revents : Flags

abbrev pub no_flags : Flags
no_flags = record {
  pollin = false;
  pollout = false;
  pollerr = false;
  pollhup = false;
  pollnval = false;
}

-- a | b
unfoldable pub flags_or : Flags → Flags → Flags
flags_or a b = record {
  pollin = a.pollin || b.pollin;
  pollout = a.pollout || b.pollout;
  pollerr = a.pollerr || b.pollerr;
  pollhup = a.pollhup || b.pollhup;
  pollnval = a.pollnval || b.pollnval;
}

-- a & ~b
unfoldable pub flags_without : Flags → Flags → Flags
flags_without a b = record {
  pollin = a.pollin && not b.pollin;
  pollout = a.pollout && not b.pollout;
  pollerr = a.pollerr && not b.pollerr;
  pollhup = a.pollhup && not b.pollhup;
  pollnval = a.pollnval && not b.pollnval;
}

-- The mask as a condition: some flag is set.
unfoldable pub any_flag : Flags → Bool
any_flag a = a.pollin || (a.pollout || (a.pollerr || (a.pollhup || a.pollnval)))

pub no_flag : (a : Flags) → any_flag a ≡ false → a ≡ no_flags
unfolding any_flag
no_flag a h = ground arith

pub no_flags-or : (a : Flags) → flags_or no_flags a ≡ a
unfolding flags_or
no_flags-or a = refl

pub no_flags-without : (a : Flags) → flags_without no_flags a ≡ no_flags
unfolding flags_without
no_flags-without a = refl

-- `revents & (POLLERR | POLLNVAL)`, and the masks of `prepare_handles` that make the writers and the
-- readers ready.
abbrev pub is_broken : Flags → Bool
is_broken r = r.pollerr || r.pollnval

unfoldable pub wakes_writers : Flags → Bool
wakes_writers r = r.pollout || (r.pollerr || r.pollnval)

unfoldable pub wakes_readers : Flags → Bool
wakes_readers r = r.pollin || (r.pollhup || (r.pollerr || r.pollnval))
