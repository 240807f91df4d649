-- ===== src/Lock.antt =====
-- cpp_utils/lock.cpp, class ZSpinLock of C++11, on an atomic flag. Its `unlock` names `ste::` and does not
-- compile: `clear` is what it means to do.
pub mod Tries
pub mod Api
pub mod Classes
pub mod Filled
pub mod Samples
pub mod Counter
mod Tests
use tiny_utils.Base.{ℕ, zero, suc, Bool, true, false, Option, none, some, if◌then◌else◌}

-- `lock_.test_and_set()`: what it leaves, and what the flag was before.
abbrev pub test_and_set : Bool → Bool × Bool
test_and_set flag = (true, flag)

-- `lock`, and the value it returns: none where the function ends without a `return`.
unfoldable pub lock : Bool → Bool × Option Bool
lock flag =
    let (flag', held) = test_and_set flag in if held then (flag', some true) else (flag', none)

-- `while(times > 0)`. Before the try with `times` left, `others` is what the other threads do to the
-- flag.
unfoldable pub try_loop : ℕ → (ℕ → Bool → Bool) → Bool → Bool × Bool
try_loop zero others flag = (flag, false)
try_loop (suc times) others flag =
    let (flag', held) = test_and_set (others (suc times) flag) in
    let again = try_loop times others flag' in if held then again else (flag', true)

unfoldable pub try_lock : (ℕ → Bool → Bool) → Bool → Bool × Bool
try_lock others flag = try_loop 100 others flag

-- `lock_.clear()`
unfoldable pub clear : Bool → Bool
clear flag = false
