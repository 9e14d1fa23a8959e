-- ===== src/Poll.antt =====
-- include/io/execution/impl/poll_multiplexer_impl.hpp
pub mod Flags
pub mod Interest
pub mod Order
pub mod Syscall
pub mod Mux
pub mod Wait
pub mod Steps
pub mod Submit
pub mod Wakeups
pub mod Arming
pub mod Races
pub mod Examples
pub mod Timeout
pub mod Answers
pub mod Safety
pub mod Completion
pub mod Conservation
pub mod Backing
pub mod Pointers
pub mod Delivery
pub mod Service
pub mod Runs
