-- ===== src/Threads/Alone/Bind.antt =====
-- A task that continues, alone.
use sqlgate.Prelude.{◌≡◌, refl}
use sqlgate.Db.{World}
use sqlgate.Threads.{Task, done, act, alone, ◌>>=◌}

pub alone-bind :
    {A B : Type 0} (t : Task A) (k : A → Task B) (w : World)
    → alone (t >>= k) w ≡ alone (k (alone t w).0) (alone t w).1
alone-bind (done a) k w = refl
alone-bind (act e n) k w = alone-bind (n w) k (e w)
