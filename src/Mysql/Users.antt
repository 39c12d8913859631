-- ===== src/Mysql/Users.antt =====
-- mapper/UserMapper.cpp: the password of a user, by a search of the whole table.
pub mod First
use live_broadcast_server.Common.{
  ℕ, zero, suc, ◌+◌, ◌-◌, ◌*◌, ◌/◌, ap, Bool, true, false, Option, none, some, List, [], ◌∷◌, map,
  if◌then◌else◌, length,
}
use live_broadcast_server.Common.Names.{Map, find_key, compare_names, by_order}
use live_broadcast_server.Mysql.Result.{
  DataType, Field, Column, NativeType, var_string, Row, QueryResult, set_field, set_fields, fill,
  next_row, next_in, end_query, new_result, field_of, add_columns, emplace,
}

abbrev pub user_name : List ℕ
user_name = b'u' ∷ b's' ∷ b'e' ∷ b'r' ∷ []

abbrev pub passwd_name : List ℕ
passwd_name = b'p' ∷ b'a' ∷ b's' ∷ b's' ∷ b'w' ∷ b'd' ∷ []

-- What a search comes to: the text returned, the use of a null pointer, or a bound on the rounds that
-- was too small.
pub data Search : Type 0 where
  returns : List ℕ → Search
  uses_null unfinished : Search

pub same_name : List ℕ → List ℕ → Bool
same_name a b = by_order (compare_names a b) false true false

-- `return (*result)["passwd"].GetString()`
pub passwd_in : Option Field → Search
passwd_in none = uses_null
passwd_in (some f) = returns f.bytes

-- The test of one row.
pub test_user : Option Field → Search → Search → List ℕ → Search
unfolding same_name
test_user none found rest name = uses_null
test_user (some f) found rest name = if same_name f.bytes name then found else rest

-- The `do while`, a round for every row and one more.
pub look_in : ℕ → List ℕ → QueryResult → Search
unfolding passwd_in test_user
look_in zero name q = unfinished
look_in (suc fuel) name q =
    let u = field_of user_name q in
    let n = next_row u.1 in
    let rest = look_in fuel name n.1 in
    test_user (u.0) (passwd_in (field_of passwd_name u.1).0) (if n.0 then rest else returns []) name

rounds_of : Option (List Row) → ℕ
rounds_of none = 1
rounds_of (some rows) = length rows + 1

pub get_passwd_by_user : Option QueryResult → List ℕ → Search
unfolding look_in rounds_of
get_passwd_by_user none name = returns []
get_passwd_by_user (some q) name = look_in (rounds_of q.res) name q
