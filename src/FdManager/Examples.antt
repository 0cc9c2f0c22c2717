-- ===== src/FdManager/Examples.antt =====
-- A run on an empty table.
use sylar.Common.{◌≡◌, refl, true, false, some, none}
use sylar.Common.Outcome.{ok, ◌>>=◌}
use sylar.FdManager.{new_fd_manager, get, del, entry}

gone_after_del :
    (get (some true) false 70 true new_fd_manager >>= λ r. ok (entry 70 (del 70 r.0).datas))
    ≡ ok none
unfolding get del new_fd_manager
gone_after_del = refl
