-- ===== src/Server/Users.antt =====
-- The class `UserManager` (src/server/user_manager.h, src/server/user_manager.cpp). Its lock makes
-- each call one step.
use cpp_chat_channel.Base.{◌≡◌, Option, none, some, ◌==◌, int_eq, if◌then◌else◌, Bytes}
use cpp_chat_channel.Base.Assoc.{lookup, insert, erase_key, lookup-insert, lookup-erase_key}
use cpp_chat_channel.Os.{Fd}
use cpp_chat_channel.Server.{Globals}

module _ {K : Type 0} where
  -- `none` where it returns false.
  unfoldable pub get_user_name : Fd → Globals K → Option Bytes
  get_user_name fd g = lookup fd g.name_map

  unfoldable pub set_user_name : Fd → Bytes → Globals K → Globals K
  set_user_name fd name g = record g { name_map = insert fd name g.name_map }

  unfoldable pub remove_user_name : Fd → Globals K → Globals K
  remove_user_name fd g = record g { name_map = erase_key fd g.name_map }

  -- A name is found after it is set, not after it is removed, and the names of other connections
  -- stay as they are.
  pub get_user_name_lem :
      (fd other : Fd) (name : Bytes) (g : Globals K)
      → (get_user_name other (set_user_name fd name g)
          ≡ (if fd == other then some name else get_user_name other g))
        × (get_user_name other (remove_user_name fd g)
            ≡ (if fd == other then none else get_user_name other g))
  unfolding get_user_name set_user_name remove_user_name
  get_user_name_lem fd other name g =
      (lookup-insert fd other name g.name_map, lookup-erase_key fd other g.name_map)
