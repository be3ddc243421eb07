-- ===== src/Client/Arguments.antt =====
-- The command lines of the clients: `host=` and `port=` (src/client/client.cpp,
-- src/client/client_win.cpp).
use cpp_chat_channel.Base.{
  ℕ, ◌+◌, Option, none, some, List, [], ◌∷◌, if◌then◌else◌, Bytes, codes, take, drop,
}
use cpp_chat_channel.Text.{same_text, is_prefix, find}

-- The host and the port.
abbrev pub Endpoint : Type 0
Endpoint = Bytes × Bytes

abbrev pub default_endpoint : Endpoint
default_endpoint = (codes "127.0.0.1", codes "4800")

unfoldable pub port_of_scheme : Bytes → Bytes
port_of_scheme scheme =
    if same_text scheme (codes "https")
    then codes "443"
    else if same_text scheme (codes "http")
    then codes "80"
    else codes "4800"

-- A cut where "://" stands: the port that the scheme gives, and the url without the scheme.
unfoldable pub strip_at : Option ℕ → Bytes → Bytes × Bytes
unfolding port_of_scheme
strip_at none url = (codes "4800", url)
strip_at (some p) url = (port_of_scheme (take p url), drop (p + 3) url)

unfoldable pub strip_scheme : Bytes → Bytes × Bytes
unfolding strip_at find
strip_scheme url = strip_at (find (codes "://") url) url

-- A cut where the colon stands.
unfoldable pub split_at : Option ℕ → Bytes → Bytes → Endpoint
split_at none default_port url = (url, default_port)
split_at (some p) default_port url = (take p url, drop (p + 1) url)

unfoldable pub split_port : Bytes → Bytes → Endpoint
unfolding split_at find
split_port default_port url = split_at (find (codes ":") url) default_port url

unfoldable pub cut_at : Option ℕ → Bytes → Bytes
cut_at none url = url
cut_at (some p) url = take p url

-- The Windows client cuts the path off.
unfoldable pub cut_path : Bytes → Bytes
unfolding cut_at find
cut_path url = cut_at (find (codes "/") url) url

-- The value of host=, with what is done to the url behind its scheme.
unfoldable pub endpoint_of : (Bytes → Bytes) → Bytes → Endpoint
unfolding strip_scheme split_port
endpoint_of cut url =
    let (default_port, rest) = strip_scheme url in split_port default_port (cut rest)

-- One argument of the command line.
unfoldable pub take_argument : (Bytes → Bytes) → Endpoint → Bytes → Endpoint
unfolding endpoint_of is_prefix
take_argument cut e arg =
    if is_prefix (codes "host=") arg
    then endpoint_of cut (drop 5 arg)
    else if is_prefix (codes "port=") arg
    then (e.0, drop 5 arg)
    else e

unfoldable pub take_arguments : (Bytes → Bytes) → Endpoint → List Bytes → Endpoint
unfolding take_argument
take_arguments cut e [] = e
take_arguments cut e (arg ∷ args) = take_arguments cut (take_argument cut e arg) args

-- std::getline, then `guest` for an empty name.
unfoldable pub entered_name : Bytes → Bytes
entered_name [] = codes "guest"
entered_name (c ∷ line) = c ∷ line
