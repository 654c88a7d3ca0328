-- ===== src/Core/Backends.antt =====
-- The loops over backends that channel_backend_manager.cc and rpc_backend_manager.cc share.
use aim_rt.Prelude.{Bool, ◌&&◌, List, [], ◌∷◌}

-- `for (auto& b : vec) ret &= f(b)`: every backend is asked.
unfoldable pub ask_all : {B W : Type 0} → (B → W → W × Bool) → List B → W → Bool → W × Bool
ask_all f [] w ret = (w, ret)
ask_all f (b ∷ bs) w ret = ask_all f bs (f b w).0 (ret && (f b w).1)

unfoldable pub tell_all : {B W : Type 0} → (B → W → W) → List B → W → W
tell_all f [] w = w
tell_all f (b ∷ bs) w = tell_all f bs (f b w)
