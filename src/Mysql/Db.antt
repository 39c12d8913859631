-- ===== src/Mysql/Db.antt =====
-- mysql/DbMysql.h and DbMysql.cpp: the handle of a connection to the database. What the server answers
-- is an argument. `mysql_init` makes an object for a null pointer, and otherwise initialises the object
-- that it is given; `mysql_close` frees it; `none` is the use of an object that was freed.
pub mod Reuse
use live_broadcast_server.Common.{
  ℕ, ◌-◌, ◌/◌, ◌≡◌, Bool, true, false, not, Option, none, some, List, [], if◌then◌else◌,
}
use live_broadcast_server.Mysql.Result.{Column, Row, QueryResult, new_result}

pub data Handle : Type 0 where
  null live freed : Handle

pub record DatabaseInfo : Type 0 where
  pub host : List ℕ
  pub user : List ℕ
  pub passwd : List ℕ
  pub db_name : List ℕ

pub record DbMysql : Type 0 where
  pub db_info : DatabaseInfo
  pub inited : Bool
  pub mysql : Handle

abbrev pub new_db : DbMysql
new_db = record {
  db_info = record { host = []; user = []; passwd = []; db_name = [] };
  inited = false;
  mysql = null;
}

abbrev pub is_freed : Handle → Bool
is_freed freed = true
is_freed _ = false

-- `mysql_close`
abbrev pub close_handle : Handle → Option Handle
close_handle null = some null
close_handle live = some freed
close_handle freed = none

abbrev pub init_handle : Handle → Option Handle
init_handle freed = none
init_handle _ = some live

-- Behind `mysql_init`, with what `mysql_real_connect` returns.
unfoldable pub connect_in : Bool → DatabaseInfo → DbMysql → Option Handle → Option (Bool × DbMysql)
connect_in ok info d none = none
connect_in true info d (some h) = some (true, record d { db_info = info; inited = true; mysql = h })
connect_in false info d (some h) = some (false, record d { db_info = info; mysql = freed })

unfoldable pub init_behind : Option Handle → Option Handle
init_behind none = none
init_behind (some h) = init_handle h

unfoldable pub initialize : Bool → DatabaseInfo → DbMysql → Option (Bool × DbMysql)
unfolding connect_in init_behind
initialize ok info d =
    connect_in ok info d (init_behind (if d.inited then close_handle d.mysql else some d.mysql))

-- `if (!inited_) { if (!Initialize(...)) ... }`
pub ensure : Bool → DbMysql → Option (Bool × DbMysql)
unfolding initialize
ensure ok d = if d.inited then some (true, d) else initialize ok d.db_info d

-- What the server answers to a query: an error, nothing to store, or rows.
pub data Answer : Type 0 where
  refused no_rows : Answer
  has_rows : List Column → List Row → Answer

abbrev pub stored : Answer → Option QueryResult
stored refused = none
stored no_rows = none
stored (has_rows columns rows) = some (new_result columns rows)

pub query_with : Answer → Option (Bool × DbMysql) → Option (Option QueryResult × DbMysql)
query_with a none = none
query_with a (some (false, d)) = some (none, d)
query_with a (some (true, d)) = if is_freed d.mysql then none else some (stored a, d)

pub query : Bool → Answer → DbMysql → Option (Option QueryResult × DbMysql)
unfolding ensure query_with
query ok a d = query_with a (ensure ok d)

-- What the server answers to `Execute`: done, an error, or that it has gone, and then whether it
-- can be connected to again and what it answers.
pub data Executed : Type 0 where
  done failed : Executed
  gone : Bool → Bool → Executed

-- The second try.
pub again : Bool → Option (Bool × DbMysql) → Option (Bool × DbMysql)
again ok none = none
again ok (some (false, d)) = some (false, d)
again ok (some (true, d)) = if is_freed d.mysql then none else some (ok, d)

pub execute_in : Executed → DbMysql → Option (Bool × DbMysql)
unfolding initialize again
execute_in done d = some (true, d)
execute_in failed d = some (false, d)
execute_in (gone connects ok) d = again ok (initialize connects d.db_info d)

pub execute_with : Executed → Option (Bool × DbMysql) → Option (Bool × DbMysql)
unfolding execute_in
execute_with a none = none
execute_with a (some (false, d)) = some (false, d)
execute_with a (some (true, d)) = if is_freed d.mysql then none else execute_in a d

pub execute : Bool → Executed → DbMysql → Option (Bool × DbMysql)
unfolding ensure execute_with
execute ok a d = execute_with a (ensure ok d)

-- `~DbMysql`
pub destroy : DbMysql → Option Handle
destroy d = if d.inited then close_handle d.mysql else some d.mysql

-- The calls of a client, and whether they all use an object that is there.
pub data Call : Type 0 where
  initializes : Bool → DatabaseInfo → Call
  queries : Bool → Answer → Call
  executes : Bool → Executed → Call

unfoldable pub db_of : {R : Type 0} → Option (R × DbMysql) → Option DbMysql
db_of none = none
db_of (some r) = some r.1

unfoldable pub call : DbMysql → Call → Option DbMysql
unfolding initialize query execute db_of
call d (initializes ok info) = db_of (initialize ok info d)
call d (queries ok a) = db_of (query ok a d)
call d (executes ok a) = db_of (execute ok a d)

pub data Reach : DbMysql → Type 0 where
  starts : Reach new_db
  calls : {d e : DbMysql} (c : Call) → Reach d → call d c ≡ some e → Reach e
