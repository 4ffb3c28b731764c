-- ===== src/Table.antt =====
-- A PostgreSQL table with one text column as primary key, as an association list of rows: the
-- SELECT, INSERT .. ON CONFLICT, UPDATE and DELETE statements that the queries use. Also a
-- JavaScript `Map` with string keys, whose `set` and `delete` are `upsert` and `remove`.
mod Laws
pub use Laws.*
unfoldable pub use Laws.{Table, get, modify, modify_where, remove, upsert, insert_new, has_key}
