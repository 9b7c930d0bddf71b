-- ===== src/Tests/Sessions.antt =====
-- A statement that is moved, and the theorem at it.
use sqxx.Base.{◌≡◌, refl, true, some}
use sqxx.Statement.{init, destroy, move}
use sqxx.Session.Moved.{strays-move}
use sqxx.Tests.StatementApi.{api, two_rows}
use sqxx.Tests.Preparer.{preparer, preparer-SessionLaws}

strays-move_example :
    (destroy api (move (init 0 (some 7))).1 (destroy api (move (init 0 (some 7))).0 two_rows)).stray
    ≡ true
unfolding init
strays-move_example =
    strays-move preparer api preparer-SessionLaws 7 (init 0 (some 7)) two_rows refl
