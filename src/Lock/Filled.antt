-- ===== src/Lock/Filled.antt =====
-- Which classes of cpp_utils/lock.cpp are locks.
use tiny_utils.Base.{refl, arith}
use tiny_utils.Lock.Api.{IsLock}
use tiny_utils.Lock.Classes.{
  StdMutex, PthreadLock, mutex_lock, mutex_try_lock, mutex_unlock, z_mutex_lock, pthread_lock,
  pthread_try_lock, pthread_unlock, z_pthread_lock,
}

pub z_mutex_lock-IsLock : (m : StdMutex) → IsLock (z_mutex_lock m)
unfolding mutex_lock mutex_try_lock mutex_unlock
z_mutex_lock-IsLock m = record {
  owner = m.holder;
  begins = m.constructed_free;
  takes = λ i s free. let (s', e, own) = m.locks_free i s free in (s', rw e refl, own);
  waits = λ i j s held ne. rw (m.blocks i j s held ne) refl;
  gives_back = λ i s own. (refl, m.unlocks i s own);
  gets = m.tried;
  gives_up = m.not_tried;
}

pub z_pthread_lock-IsLock : (p : PthreadLock) → IsLock (z_pthread_lock p)
unfolding pthread_lock pthread_try_lock pthread_unlock
z_pthread_lock-IsLock p = record {
  owner = p.holder;
  begins = p.initialised_free;
  takes = λ i b free. let (b', e, own) = p.locks_free i b free in (b', rw e refl, own);
  waits = λ i j b held ne. rw (p.blocks i j b held ne) refl;
  gives_back = λ i b own. let (zero_code, free) = p.unlocks i b own in (rw zero_code refl, free);
  gets = λ i b other got. p.tried i b (ground arith);
  gives_up = λ i b failed. p.not_tried i b (ground arith);
}
