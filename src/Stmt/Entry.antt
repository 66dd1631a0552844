-- ===== src/Stmt/Entry.antt =====
-- project/driver/src/OdbcEntry.cpp: what the frame of the entry points promises.
use ez_rets.Base.{◌≡◌, refl, ◌≢◌, Bool, true, false}
use ez_rets.Memory.{Memory}
use ez_rets.Platform.{Platform}
use ez_rets.Stmt.{Stmt, Done, End, returned, escaped, crashed, enter, handled}
use ez_rets.Translation.{Exception}

handled-ne :
    (p : Platform) (d : Done) (r : End) (e : Exception)
    → d.end ≡ r
    → (handled p d r).end ≢ escaped e
unfolding handled
handled-ne p d (returned r) e h = λ q. cc
handled-ne p d (escaped x) e h = λ q. cc
handled-ne p d crashed e h = λ q. cc

-- No exception leaves an entry point, whatever the call that it makes and whether or not the
-- handle is null.
enter-ne-escaped :
    (p : Platform) (handle_is_null : Bool) (s : Stmt) (m : Memory) (call : Stmt → Memory → Done)
    (e : Exception)
    → (enter p handle_is_null s m call).end ≢ escaped e
unfolding enter
enter-ne-escaped p true s m call e = λ q. cc
enter-ne-escaped p false s m call e = handled-ne p (call s m) (call s m).end e refl
