-- ===== src/Client/Endpoints.antt =====
-- Where the clients connect to for a url (src/client/client.cpp, src/client/client_win.cpp).
use cpp_chat_channel.Base.{
  ℕ, suc, ◌+◌, ◌≡◌, refl, ap, ◌∙◌, none, some, [], ◌∷◌, ◌++◌, true, false, arith, ◌==◌, ==_refl,
  nat_eq, Bytes, codes, length, take, drop, All, append_assoc,
}
use cpp_chat_channel.Text.{is_prefix, find}
use cpp_chat_channel.Client.Arguments.{
  port_of_scheme, strip_scheme, strip_at, split_at, cut_at, split_port, cut_path, endpoint_of,
}

-- A text without a character.
abbrev pub Lacks : ℕ → Bytes → Type 0
Lacks c s = All (λ d. (c == d) ≡ false) s

is_prefix-append : (p t : Bytes) → is_prefix p (p ++ t) ≡ true
unfolding is_prefix
is_prefix-append [] t = refl
is_prefix-append (c ∷ p) t = rw (==_refl c, is_prefix-append p t)

-- A pattern is found where it stands first.
pub find-append :
    (c : ℕ) (p s t : Bytes) → Lacks c s → find (c ∷ p) (s ++ (c ∷ p ++ t)) ≡ some (length s)
unfolding find is_prefix
find-append c p [] t h = rw (==_refl c, is_prefix-append p t)
find-append c p (d ∷ s) t h = rw (h.0, find-append c p s t h.1)

pub find-absent : (c : ℕ) (p s : Bytes) → Lacks c s → find (c ∷ p) s ≡ none
unfolding find is_prefix
find-absent c p [] h = refl
find-absent c p (d ∷ s) h = rw (h.0, find-absent c p s h.1)

take_front : (s t : Bytes) → take (length s) (s ++ t) ≡ s
take_front [] t = refl
take_front (c ∷ s) t = ap (◌∷◌ c) (take_front s t)

drop_front : (k : ℕ) (s t : Bytes) → drop (length s + k) (s ++ t) ≡ drop k t
drop_front k [] t = let e : 0 + k ≡ k = omega arith in ap (λ n. drop n t) e
drop_front k (c ∷ s) t =
    let e : suc (length s) + k ≡ suc (length s + k) = omega arith in
    ap (λ n. drop n (c ∷ (s ++ t))) e ∙ drop_front k s t

pub pair_path : {A B : Type 0} {x y : A} {u v : B} → x ≡ y → u ≡ v → ◌≡◌ {A = A × B} (x, u) (y, v)
pair_path {y = y} {u = u} p q = ap (λ a. (a, u)) p ∙ ap (λ b. (y, b)) q

strip_scheme-append :
    (scheme url : Bytes)
    → Lacks 58 scheme
    → strip_scheme (scheme ++ (codes "://" ++ url)) ≡ (port_of_scheme scheme, url)
unfolding strip_scheme strip_at
strip_scheme-append scheme url h =
    ap (λ p. strip_at p (scheme ++ (codes "://" ++ url))) (find-append 58 (codes "//") scheme url h)
    ∙ pair_path (ap port_of_scheme (take_front scheme (codes "://" ++ url)))
        (drop_front 3 scheme (codes "://" ++ url))

split_port-append :
    (default host port : Bytes)
    → Lacks 58 host
    → split_port default (host ++ 58 ∷ port) ≡ (host, port)
unfolding split_port split_at
split_port-append default host port h =
    ap (λ p. split_at p default (host ++ 58 ∷ port)) (find-append 58 [] host port h)
    ∙ pair_path (take_front host (58 ∷ port)) (drop_front 1 host (58 ∷ port))

split_port_none : (default host : Bytes) → Lacks 58 host → split_port default host ≡ (host, default)
unfolding split_port split_at
split_port_none default host h = ap (λ p. split_at p default host) (find-absent 58 [] host h)

cut_path-append : (url path : Bytes) → Lacks 47 url → cut_path (url ++ 47 ∷ path) ≡ url
unfolding cut_path cut_at
cut_path-append url path h =
    ap (λ p. cut_at p (url ++ 47 ∷ path)) (find-append 47 [] url path h)
    ∙ take_front url (47 ∷ path)

module _ (scheme host : Bytes) (scheme_plain : Lacks 58 scheme) (host_plain : Lacks 58 host) where
  -- For a url `scheme://host:port`, whose scheme and host have no colon, the client for Linux connects
  -- to that host and port; without `:port`, to the port of the scheme.
  pub endpoint_of_url :
      (port : Bytes)
      → (endpoint_of (λ url. url) (scheme ++ (codes "://" ++ (host ++ 58 ∷ port))) ≡ (host, port))
        × (endpoint_of (λ url. url) (scheme ++ (codes "://" ++ host))
            ≡ (host, port_of_scheme scheme))
  unfolding endpoint_of
  endpoint_of_url port = (
    rw (strip_scheme-append scheme (host ++ 58 ∷ port) scheme_plain)
        (split_port-append (port_of_scheme scheme) host port host_plain),
    rw (strip_scheme-append scheme host scheme_plain)
        (split_port_none (port_of_scheme scheme) host host_plain),
  )

  -- With a path behind the port, where neither host nor port has a slash, the client for Windows
  -- connects to the host and the port, while the client for Linux takes the path as part of the port.
  pub endpoint_of_path :
      (port path : Bytes)
      → Lacks 47 (host ++ 58 ∷ port)
      → (endpoint_of cut_path (scheme ++ (codes "://" ++ ((host ++ 58 ∷ port) ++ 47 ∷ path)))
          ≡ (host, port))
        × (endpoint_of (λ url. url) (scheme ++ (codes "://" ++ ((host ++ 58 ∷ port) ++ 47 ∷ path)))
            ≡ (host, port ++ 47 ∷ path))
  unfolding endpoint_of
  endpoint_of_path port path no_slash =
      let url = (host ++ 58 ∷ port) ++ 47 ∷ path in
      (
        rw
            (
              strip_scheme-append scheme url scheme_plain,
              cut_path-append (host ++ 58 ∷ port) path no_slash,
            )
            (split_port-append (port_of_scheme scheme) host port host_plain),
        rw (strip_scheme-append scheme url scheme_plain, append_assoc host (58 ∷ port) (47 ∷ path))
            (split_port-append (port_of_scheme scheme) host (port ++ 47 ∷ path) host_plain),
      )
