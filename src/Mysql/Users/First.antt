-- ===== src/Mysql/Users/First.antt =====
-- mapper/UserMapper.cpp, `GetPasswdByUser`: the first row of the user, where the table has rows.
use live_broadcast_server.Common.{ℕ, Option, none, some, List, [], ◌∷◌, if◌then◌else◌}
use live_broadcast_server.Common.Names.{Map}
use live_broadcast_server.Mysql.Result.{
  Field, Column, NativeType, Row, QueryResult, next_row, field_of, emplace,
}
use live_broadcast_server.Mysql.Users.{
  user_name, passwd_name, Search, returns, uses_null, same_name, passwd_in, test_user, look_in,
}

-- A row of the query "select user, passwd from live_user".
pub record User : Type 0 where
  pub user : Option (List ℕ)
  pub passwd : Option (List ℕ)

abbrev pub text_of : Option (List ℕ) → List ℕ
text_of none = []
text_of (some xs) = xs

abbrev pub row_of : User → Row
row_of u = u.user ∷ u.passwd ∷ []

abbrev pub rows_of : List User → List Row
rows_of [] = []
rows_of (u ∷ us) = row_of u ∷ rows_of us

abbrev pub columns_of : NativeType → NativeType → List Column
columns_of t s =
    record { name = user_name; type = t } ∷ record { name = passwd_name; type = s } ∷ []

-- The password in the first row of the name, and the empty text without such a row.
pub first_passwd : List ℕ → List User → List ℕ
first_passwd name [] = []
first_passwd name (u ∷ us) =
    let rest = first_passwd name us in
    if same_name (text_of u.user) name then text_of u.passwd else rest

-- A table without rows makes the search use a null pointer.
pub search_table : List ℕ → List User → Search
unfolding first_passwd
search_table name [] = uses_null
search_table name (u ∷ us) = returns (first_passwd name (u ∷ us))

-- A result that stands at a row.
abbrev at_row : Map ℕ → Field → Field → List Row → ℕ → QueryResult
at_row m f g rows n = record {
  field_map = m;
  fields = some (f ∷ g ∷ []);
  res = some rows;
  num_fields = n;
}

-- What a round does once the column of the user is looked up.
abbrev after_user : ℕ → List ℕ → Option Field × QueryResult → Search
after_user fuel name u =
    let n = next_row u.1 in
    let rest = look_in fuel name n.1 in
    test_user u.0 (passwd_in (field_of passwd_name u.1).0) (if n.0 then rest else returns []) name

abbrev new_map : Map ℕ
unfolding emplace
new_map = emplace passwd_name 1 (emplace user_name 0 [])
