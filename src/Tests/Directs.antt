-- ===== src/Tests/Directs.antt =====
-- The methods of direct.go on a small database.
use rediqueue.Base.{◌≡◌}
use rediqueue.Reply.{bulk, null}
use rediqueue.Cmd.Lists.{left, xpop}
use rediqueue.Direct.Agree.{written_as, direct_xpop, xpop-direct_xpop}
use rediqueue.Tests.Dbs.{two_keys}

xpop-direct_xpop_example :
    xpop left "l" two_keys ≡ written_as null bulk (direct_xpop left "l" two_keys)
xpop-direct_xpop_example = xpop-direct_xpop left "l" two_keys
