-- ===== src/Lock/Tests.antt =====
-- Runs of cpp_utils/lock.cpp, and the theorem for a concrete sequence.
use tiny_utils.Base.{ℕ, ◌≡◌, refl, Bool, true, false, some, ◌==◌, if◌then◌else◌}
use tiny_utils.Lock.{lock, try_loop, try_lock}

-- The flag is cleared before the try with 98 left.
abbrev cleared_at_98 : ℕ → Bool → Bool
cleared_at_98 left flag = if left == 98 then false else flag

gets_it : try_lock cleared_at_98 true ≡ (true, true)
unfolding try_lock try_loop
gets_it = refl

gives_up : try_lock (λ left flag. flag) true ≡ (true, false)
unfolding try_lock try_loop
gives_up = refl

-- `lock` does not wait: it returns true while another thread has the lock.
returns_at_once : lock true ≡ (true, some true)
unfolding lock
returns_at_once = refl
