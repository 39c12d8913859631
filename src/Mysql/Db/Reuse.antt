-- ===== src/Mysql/Db/Reuse.antt =====
-- mysql/DbMysql.cpp: the handle is initialised once.
use live_broadcast_server.Common.{
  ◌≡◌, refl, sym, subst, ◌≢◌, Bool, true, false, Option, none, some, if◌then◌else◌,
}
use live_broadcast_server.Mysql.Db.{
  Handle, null, live, freed, DatabaseInfo, DbMysql, is_freed, close_handle, connect_in, init_behind,
  initialize, ensure, Answer, stored, query_with, query, Executed, done, failed, gone, again,
  execute_in, execute_with, execute, Call, initializes, queries, executes, db_of, call, Reach,
  starts, calls,
}

-- The three states of a handle.
data IsSound : Bool → Handle → Type 0 where
  is_fresh : IsSound false null
  is_open : IsSound true live
  is_lost : IsSound false freed

abbrev Sound : DbMysql → Type 0
Sound d = IsSound d.inited d.mysql

-- A call that goes through leaves a sound handle.
abbrev Keeps : {R : Type 0} → Option (R × DbMysql) → Type 0
Keeps none = Unit {0}
Keeps (some r) = Sound r.1

initialize_in :
    (b : Bool) (h : Handle) (ok : Bool) (info : DatabaseInfo) (d : DbMysql)
    → IsSound b h
    → d.inited ≡ b
    → Keeps (connect_in ok info d (init_behind (if b then close_handle h else some h)))
unfolding connect_in init_behind
initialize_in _ _ true info d is_fresh e = is_open
initialize_in _ _ false info d is_fresh e = subst (λ b. IsSound b freed) (sym e) is_lost
initialize_in _ _ ok info d is_open e = tt
initialize_in _ _ ok info d is_lost e = tt

initialize-Keeps :
    (ok : Bool) (info : DatabaseInfo) (d : DbMysql) → Sound d → Keeps (initialize ok info d)
unfolding initialize
initialize-Keeps ok info d s = initialize_in d.inited d.mysql ok info d s refl

ensure-Keeps : (ok : Bool) (d : DbMysql) → Sound d → Keeps (ensure ok d)
unfolding ensure
ensure-Keeps ok d s = either d.inited
  where
    either : (b : Bool) → Keeps (if b then some (true, d) else initialize ok d.db_info d)
    either true = s
    either false = initialize-Keeps ok d.db_info d s

unless_freed :
    {R : Type 0} (b : Bool) (o : Option (R × DbMysql)) → Keeps o → Keeps (if b then none else o)
unless_freed true o k = tt
unless_freed false o k = k

query_with-Keeps : (a : Answer) (o : Option (Bool × DbMysql)) → Keeps o → Keeps (query_with a o)
unfolding query_with
query_with-Keeps a none k = tt
query_with-Keeps a (some (false, d)) k = k
query_with-Keeps a (some (true, d)) k = unless_freed (is_freed d.mysql) (some (stored a, d)) k

again-Keeps : (ok : Bool) (o : Option (Bool × DbMysql)) → Keeps o → Keeps (again ok o)
unfolding again
again-Keeps ok none k = tt
again-Keeps ok (some (false, d)) k = k
again-Keeps ok (some (true, d)) k = unless_freed (is_freed d.mysql) (some (ok, d)) k

execute_in-Keeps : (a : Executed) (d : DbMysql) → Sound d → Keeps (execute_in a d)
unfolding execute_in
execute_in-Keeps done d s = s
execute_in-Keeps failed d s = s
execute_in-Keeps (gone connects ok) d s =
    again-Keeps ok (initialize connects d.db_info d) (initialize-Keeps connects d.db_info d s)

execute_with-Keeps :
    (a : Executed) (o : Option (Bool × DbMysql)) → Keeps o → Keeps (execute_with a o)
unfolding execute_with
execute_with-Keeps a none k = tt
execute_with-Keeps a (some (false, d)) k = k
execute_with-Keeps a (some (true, d)) k =
    unless_freed (is_freed d.mysql) (execute_in a d) (execute_in-Keeps a d k)

abbrev KeepsDb : Option DbMysql → Type 0
KeepsDb none = Unit {0}
KeepsDb (some d) = Sound d

db_of-Keeps : {R : Type 0} (o : Option (R × DbMysql)) → Keeps o → KeepsDb (db_of o)
unfolding db_of
db_of-Keeps none k = tt
db_of-Keeps (some r) k = k

call-Keeps : (d : DbMysql) (c : Call) → Sound d → KeepsDb (call d c)
unfolding call query execute
call-Keeps d (initializes ok info) s =
    db_of-Keeps (initialize ok info d) (initialize-Keeps ok info d s)
call-Keeps d (queries ok a) s =
    db_of-Keeps (query_with a (ensure ok d))
      (query_with-Keeps a (ensure ok d) (ensure-Keeps ok d s))
call-Keeps d (executes ok a) s =
    db_of-Keeps (execute_with a (ensure ok d))
      (execute_with-Keeps a (ensure ok d) (ensure-Keeps ok d s))

Reach-Sound : (d : DbMysql) → Reach d → Sound d
Reach-Sound _ starts = is_fresh
Reach-Sound e (calls {d} c r p) = subst KeepsDb p (call-Keeps d c (Reach-Sound d r))

initialize_used :
    (b : Bool) (h : Handle) (ok : Bool) (info : DatabaseInfo) (d : DbMysql)
    → IsSound b h
    → h ≢ null
    → connect_in ok info d (init_behind (if b then close_handle h else some h)) ≡ none
unfolding connect_in init_behind
initialize_used _ _ ok info d is_fresh n = absurd (n refl)
initialize_used _ _ ok info d is_open n = refl
initialize_used _ _ ok info d is_lost n = refl

-- Whatever calls have been made, Initialize uses a handle that was freed as soon as there is a
-- handle from before: after a success it closes it first, and after a failure it was closed then.
pub initialize-again :
    (ok : Bool) (info : DatabaseInfo) (d : DbMysql)
    → Reach d
    → d.mysql ≢ null
    → initialize ok info d ≡ none
unfolding initialize
initialize-again ok info d r n = initialize_used d.inited d.mysql ok info d (Reach-Sound d r) n
