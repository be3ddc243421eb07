-- ===== src/Json.antt =====
-- What the servers use of jansson through src/libs/json.h. The library is not in the repository, so it
-- is a parameter. Texts are C strings, without their final zero.
pub mod Free
pub mod Grammar
use cpp_chat_channel.Base.{ℕ, Option, List, Bytes}

-- A value that json_pack is given for `s` or for `I`.
pub data Value : Type 0 where
  text : Bytes → Value
  number : ℕ → Value

pub record Jansson : Type 1 where
  pub Json : Type 0
  -- json_loads(text, 0, &err): `none` is NULL
  pub loads : Bytes → Option Json
  -- json_unpack(root, "{s:s}", key, &out) and json_unpack(root, "{s:I}", key, &out), with the 64 bits
  -- that `I` stores
  pub string_at : Json → Bytes → Option Bytes
  pub integer_at : Json → Bytes → Option ℕ
  -- json_pack("{…}", key, value, …): `none` is NULL
  pub pack : List (Bytes × Value) → Option Json
  -- json_array() and json_array_append_new, then json_dumps(array, 0)
  pub dumps : List Json → Option Bytes
