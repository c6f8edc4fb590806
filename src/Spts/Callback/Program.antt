-- ===== src/Spts/Callback/Program.antt =====
-- Any number of frames, written through the callback.
use sptsmuxer.Base.{ℕ, List, [], ◌∷◌}
use sptsmuxer.Spts.State.{SpTs, Buffer}
use sptsmuxer.Spts.Callback.{Writes, pure, ◌>>=◌, spts_write_frame_to}

-- The frames of a list, one after the other.
unfoldable pub write_frames_to {ℓ} :
    {Data : Type ℓ} → (ℕ → ℕ → ℕ → ℕ) → SpTs → List Buffer → Writes Data SpTs
write_frames_to uint64_scale spts [] = pure spts
write_frames_to uint64_scale spts (buffer ∷ buffers) = do
  next ← spts_write_frame_to uint64_scale spts buffer
  write_frames_to uint64_scale next buffers
