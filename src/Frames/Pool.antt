-- ===== src/Frames/Pool.antt =====
-- core/frame.cpp, `FramePool`: frame buffers are recycled. A frame is the number of its buffer with the
-- shape that the buffer was made for; `made` counts the buffers that were allocated. A pool that is
-- gone, which the deleter's weak reference finds out, frees the buffer.
pub mod Custody
use weblinked.Base.{
  ℕ, suc, ◌+◌, Bool, true, false, Option, none, some, List, [], ◌∷◌, ltb, leb, if◌then◌else◌,
  length,
}

pub record Frame : Type 0 where
  pub buffer : ℕ
  pub size_bytes : ℕ

-- The back of `free_` is the head of the list.
pub record Pool : Type 0 where
  pub frame_bytes : ℕ
  pub max_retained : ℕ
  pub free : List Frame
  pub made : ℕ

unfoldable pub create : ℕ → ℕ → Pool
create frame_bytes max_retained = record {
  frame_bytes = frame_bytes;
  max_retained = max_retained;
  free = [];
  made = 0;
}

unfoldable pub acquire_from : Pool → List Frame → Pool × Frame
acquire_from p [] =
    (record p { made = p.made + 1 }, record { buffer = p.made; size_bytes = p.frame_bytes })
acquire_from p (f ∷ rest) = (record p { free = rest }, f)

unfoldable pub acquire : Pool → Pool × Frame
unfolding acquire_from
acquire p = acquire_from p p.free

unfoldable pub recycle : Pool → Frame → Pool
recycle p f = if leb p.max_retained (length p.free) then p else record p { free = f ∷ p.free }

-- The deleter of a frame: to the pool if it still exists.
unfoldable pub drop_frame : Option Pool → Frame → Option Pool
unfolding recycle
drop_frame none f = none
drop_frame (some p) f = some (recycle p f)

unfoldable pub retained_count : Pool → ℕ
retained_count p = length p.free
