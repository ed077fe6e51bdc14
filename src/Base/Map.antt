-- ===== src/Base/Map.antt =====
-- Go's maps: their operations, and what holds of every entry.
mod Defs
mod Entries
mod Growth
unfoldable pub use Defs.{Map, keys, get, insert, delete, map_values, map_option}
pub use Defs.{
  beq_self, get-insert, get-insert_self, get-insert_ne, get-delete, get-map_values,
  length-insert-some, length-insert-none,
}
pub use Entries.*
pub use Growth.*
