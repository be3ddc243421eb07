-- ===== src/Server/Typed.antt =====
-- The class `TypedFrameServer` (src/server/typed_frame_server.h, src/server/typed_frame_server.cpp).
use cpp_chat_channel.Base.{none, some, nat_eq, Bytes, codes}
use cpp_chat_channel.Text.{c_str}
use cpp_chat_channel.Effects.{ok}
use cpp_chat_channel.Os.{Fd, Os}
use cpp_chat_channel.Json.{Jansson}
use cpp_chat_channel.Server.Base.{Method}

module _ (os : Os) (jansson : Jansson) (D : Type 0) where
  -- TypedFrameServer::on_frame, which calls the virtual `on_req`.
  unfoldable pub on_frame :
      (Fd → Bytes → jansson.Json → Method os D (Unit {0})) → Fd → Bytes → Method os D (Unit {0})
  unfolding c_str
  on_frame on_req from frame s = elim (jansson.loads (c_str frame)) [
    | none ↦ (ok tt, s)
    | some root ↦ elim (jansson.string_at root (codes "type")) [
      | none ↦ (ok tt, s)
      | some kind ↦ on_req from kind root s
    ]
  ]
