-- ===== src/Frames.antt =====
-- How frames are stored and handed on: core/recycle_ring.h (`Recycle`), core/frame_ring.h
-- (`Latest` and `Queue`), core/frame.cpp (`Pool`) and outputs/screen_frame_ring.h (`Screen`). Every
-- operation holds the object's mutex throughout, so an operation is one step on its state.
pub mod Recycle
pub mod Latest
pub mod Queue
pub mod Pool
pub mod Screen
mod Tests
