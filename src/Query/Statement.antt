-- ===== src/Query/Statement.antt =====
-- wasm-dbms-api/src/dbms/query.rs and query/join.rs: what a query asks for.
use wasm_dbms.Prelude.{ℕ, List, [], Bool, true, false, Option}
use wasm_dbms.Prelude.Names.{Name}
use wasm_dbms.Query.Filter.{Filter}

pub data Select : Type 0 where
  all : Select
  columns : List Name → Select

pub data OrderDirection : Type 0 where
  ascending : OrderDirection
  descending : OrderDirection

pub data JoinType : Type 0 where
  inner : JoinType
  left : JoinType
  right : JoinType
  full : JoinType

pub record Join : Type 0 where
  pub join_type : JoinType
  pub table : Name
  pub left_column : Name
  pub right_column : Name

pub record Query (V F : Type 0) : Type 0 where
  pub selection : Select
  pub distinct_by : List Name
  pub eager_relations : List Name
  pub filter : Option (Filter V F)
  pub group_by : List Name
  pub having : Option (Filter V F)
  pub joins : List Join
  pub limit : Option ℕ
  pub offset : Option ℕ
  pub order_by : List (Name × OrderDirection)

abbrev pub all_selected : Select → Bool
all_selected all = true
all_selected (columns names) = false

abbrev pub raw_columns : Select → List Name
raw_columns all = []
raw_columns (columns names) = names
