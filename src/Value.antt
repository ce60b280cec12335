-- ===== src/Value.antt =====
-- Values of the dictionaries that the program passes around as metadata (`dict[str, Any]`).
mod Defs
mod Equality
pub use Defs.{
  Value, nothing, flag, num, text, items, dict, Items, nil, cons, Fields, end, field, number?,
  dict_of,
}
unfoldable pub use Defs.{entries, fields_of, elements, merge, str_value}
unfoldable pub use Equality.{field_get, value_eq}
