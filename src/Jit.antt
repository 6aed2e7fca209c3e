-- ===== src/Jit.antt =====
-- The just-in-time downlink queue, src/fwd/src/jitqueue.c with src/fwd/inc/jitqueue.h.
pub mod Types
pub mod Platform
pub mod Queue
pub mod Enqueue
pub mod Peek
pub mod Invariant
pub mod Removal
pub mod Admission
pub mod Outcome
pub mod Rollover
pub mod Slot
pub mod Order
pub mod Dequeue
pub mod PeekLoop
pub mod Peeked
pub mod Sorter
mod Tests
