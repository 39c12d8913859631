-- ===== src/Mysql/Result.antt =====
-- mysql/Field.h, Field.cpp, QueryResult.h and QueryResult.cpp: the rows of a result. A MYSQL_RES is its
-- rows that are still to be fetched; `none` where a function uses a null pointer.
use live_broadcast_server.Common.{
  ℕ, ◌+◌, Bool, true, false, Option, none, some, List, [], ◌∷◌, length, get_elem?, replicate,
}
use live_broadcast_server.Common.Names.{Map, find_key, put}

pub data DataType : Type 0 where
  type_unknown type_integer type_string type_bool type_float : DataType

pub record Field : Type 0 where
  pub data_type : DataType
  pub bytes : List ℕ
  pub nullptr_data : Bool

abbrev pub new_field : Field
new_field = record { data_type = type_unknown; bytes = []; nullptr_data = true }

-- `enum_field_types`, by the cases that the code tells apart.
pub data NativeType : Type 0 where
  timestamp date time datetime year string var_string blob set null_type : NativeType
  tiny short long int24 longlong enum : NativeType
  decimal float double : NativeType
  other_type : NativeType

pub convert_native_type : NativeType → DataType
convert_native_type timestamp = type_string
convert_native_type date = type_string
convert_native_type time = type_string
convert_native_type datetime = type_string
convert_native_type year = type_string
convert_native_type string = type_string
convert_native_type var_string = type_string
convert_native_type blob = type_string
convert_native_type set = type_string
convert_native_type null_type = type_string
convert_native_type tiny = type_integer
convert_native_type short = type_integer
convert_native_type long = type_integer
convert_native_type int24 = type_integer
convert_native_type longlong = type_integer
convert_native_type enum = type_integer
convert_native_type decimal = type_float
convert_native_type float = type_float
convert_native_type double = type_float
convert_native_type other_type = type_unknown

pub record Column : Type 0 where
  pub name : List ℕ
  pub type : NativeType

-- A MYSQL_ROW with its lengths; `none` is NULL.
abbrev pub Row : Type 0
Row = List (Option (List ℕ))

pub record QueryResult : Type 0 where
  pub field_map : Map ℕ
  pub fields : Option (List Field)
  pub res : Option (List Row)
  pub num_fields : ℕ

unfoldable pub end_query : QueryResult → QueryResult
end_query q = record q { fields = none; res = none }

-- `SetNullptr` and `SetData`
abbrev pub set_field : Field → Option (List ℕ) → Field
set_field f none = record f { nullptr_data = true; bytes = [] }
set_field f (some xs) = record f { nullptr_data = false; bytes = xs }

-- The loop over the columns.
unfoldable pub set_fields : List Field → Row → List Field
set_fields [] row = []
set_fields (f ∷ fs) [] = f ∷ fs
set_fields (f ∷ fs) (cell ∷ row) = set_field f cell ∷ set_fields fs row

unfoldable pub fill : Option (List Field) → Row → Option (List Field)
unfolding set_fields
fill none row = none
fill (some fs) row = some (set_fields fs row)

-- What is returned, and the result.
unfoldable pub next_in : Option (List Row) → QueryResult → Bool × QueryResult
unfolding end_query fill
next_in none q = (false, q)
next_in (some []) q = (false, end_query q)
next_in (some (row ∷ rows)) q = (true, record q { fields = fill q.fields row; res = some rows })

unfoldable pub next_row : QueryResult → Bool × QueryResult
unfolding next_in
next_row q = next_in q.res q

-- `field_map_.emplace(name, i)`, which keeps what is there.
unfoldable pub emplace : List ℕ → ℕ → Map ℕ → Map ℕ
emplace name i m = elim (find_key name m) [ none ↦ put name i m | some j ↦ m ]

-- `fields_->SetDataType(...)`: of the first field, whichever column it is.
abbrev pub set_first_type : DataType → List Field → List Field
set_first_type t [] = []
set_first_type t (f ∷ fs) = record f { data_type = t } ∷ fs

unfoldable pub add_columns : ℕ → List Column → Map ℕ → List Field → Map ℕ × List Field
unfolding emplace convert_native_type
add_columns i [] m fs = (m, fs)
add_columns i (c ∷ cs) m fs =
    add_columns (i + 1) cs (emplace c.name i m) (set_first_type (convert_native_type c.type) fs)

-- `QueryResult(res, num_fields, num_rows)`, of a result that is not null.
unfoldable pub new_result : List Column → List Row → QueryResult
unfolding add_columns next_row
new_result columns rows =
    let n = length columns in
    let made = add_columns 0 columns [] (replicate n new_field) in
    (next_row
      (record { field_map = made.0; fields = some made.1; res = some rows; num_fields = n })).1

-- `field_map_[name]`, which puts 0 for a name that is not there.
abbrev pub index_in : Option ℕ → List ℕ → Map ℕ → ℕ × Map ℕ
index_in none name m = (0, put name 0 m)
index_in (some i) name m = (i, m)

abbrev pub field_in : Option (List Field) → ℕ → Option Field
field_in none i = none
field_in (some fs) i = get_elem? fs i

-- `operator[]`
unfoldable pub field_of : List ℕ → QueryResult → Option Field × QueryResult
field_of name q =
    let i = index_in (find_key name q.field_map) name q.field_map in
    (field_in q.fields i.0, record q { field_map = i.1 })
