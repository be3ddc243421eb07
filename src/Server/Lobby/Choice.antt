-- ===== src/Server/Lobby/Choice.antt =====
-- Which channel `ChannelServer::find_or_create_channel` chooses (src/server/channel_server.cpp).
use cpp_chat_channel.Base.{
  subst, ℕ, suc, ◌≡◌, ◌≢◌, refl, sym, ◌∙◌, inl, inr, Option, none, some, List, [], ◌∷◌, true, false,
  arith, ◌==◌, ==_iff, ne_of_test, nat_eq, Bool-cases, Option-cases, length,
}
use cpp_chat_channel.Base.Assoc.{contains, lookup}
use cpp_chat_channel.Effects.{Outcome, ok, bind_outcome, return}
use cpp_chat_channel.Os.{Os}
use cpp_chat_channel.Json.{Jansson}
use cpp_chat_channel.Server.{Globals, Server, State}
use cpp_chat_channel.Server.Lobby.{
  Lobby, Channel, put_channel, first_free, keys, get_channel, lock_pool, find_channel,
  create_channel, find_other, find_or_create_channel,
}
use cpp_chat_channel.Server.Lobby.Calls.{is_locked, locked, get_channel_there, first_free_lem}
use cpp_chat_channel.Server.Lobby.Trial.{has_space, try_channel_lem}

-- How the search ends: with the preferred channel, with another one, or with a new one.
pub data Chooses (os : Os) (jansson : Jansson) (reads preferred : ℕ) (s : Server (Lobby os.Kernel))
    (g : Globals os.Kernel) : Outcome ℕ × State os.Kernel (Lobby os.Kernel) → Type 0 where
  chosen :
      (ch : Channel os.Kernel)
      → lookup preferred s.derived.channels ≡ some ch
      → has_space os ch ≡ true
      → Chooses os jansson reads preferred s g
          (ok preferred, (put_channel s preferred (locked ch), g))
  other :
      (pch : Channel os.Kernel)
      → lookup preferred s.derived.channels ≡ some pch
      → has_space os pch ≡ false
      → (id : ℕ) (ch : Channel os.Kernel) → id ≢ preferred
      → lookup id s.derived.channels ≡ some ch
      → has_space os ch ≡ true
      → Chooses os jansson reads preferred s g (ok id, (put_channel s id (locked ch), g))
  created :
      ((id : ℕ) (ch : Channel os.Kernel)
        → lookup id s.derived.channels ≡ some ch
        → has_space os ch ≡ false)
      → (id : ℕ) → lookup id s.derived.channels ≡ none
      → (r : Outcome ℕ × State os.Kernel (Lobby os.Kernel))
      → r
        ≡ bind_outcome
            (get_channel os jansson reads id (s, g))
            (λ _ t. bind_outcome (lock_pool os id t) (λ _ t'. (ok id, t')))
      → Chooses os jansson reads preferred s g r

lookup-keys :
    {A : Type 0} (id : ℕ) (m : List (ℕ × A)) → contains id (keys m) ≡ true → lookup id m ≢ none
unfolding contains lookup
lookup-keys id [] h = cc
lookup-keys id (entry ∷ m) h = ground (arith, lookup-keys id m, ==_iff entry.0 id)

contains-keys :
    {A : Type 0} (id : ℕ) (m : List (ℕ × A)) (v : A)
    → lookup id m ≡ some v
    → contains id (keys m) ≡ true
unfolding contains lookup
contains-keys id [] v h = cc
contains-keys id (entry ∷ m) v h = ground (arith, contains-keys id m v, ==_iff entry.0 id)

-- No channel's pools are locked.
abbrev pub AllFree : {K : Type 0} → Server (Lobby K) → Type 0
AllFree {K} s =
    (id : ℕ) (ch : Channel K) → lookup id s.derived.channels ≡ some ch → is_locked ch ≡ false

module _ (os : Os) (preferred : ℕ) (s : Server (Lobby os.Kernel)) (g : Globals os.Kernel)
    (free : AllFree s) where
  -- Where the search over `ids` ends.
  data Finds (ids : List ℕ) : Outcome (Option ℕ) × State os.Kernel (Lobby os.Kernel) → Type 0 where
    nowhere :
        ((id : ℕ) (ch : Channel os.Kernel)
          → contains id ids ≡ true
          → id ≢ preferred
          → lookup id s.derived.channels ≡ some ch
          → has_space os ch ≡ false)
        → Finds ids (ok none, (s, g))
    somewhere :
        (id : ℕ) (ch : Channel os.Kernel)
        → id ≢ preferred
        → lookup id s.derived.channels ≡ some ch
        → has_space os ch ≡ true
        → Finds ids (ok (some id), (put_channel s id (locked ch), g))

  Finds-skip :
      (id : ℕ) (ids : List ℕ) (r : Outcome (Option ℕ) × State os.Kernel (Lobby os.Kernel))
      → ((ch : Channel os.Kernel)
          → id ≢ preferred
          → lookup id s.derived.channels ≡ some ch
          → has_space os ch ≡ false)
      → Finds ids r
      → Finds (id ∷ ids) r
  unfolding contains
  Finds-skip id ids _ full (nowhere f) = nowhere (λ id' ch c n l. elim (Bool-cases (id == id')) [
    | inl same ↦
        let e = (==_iff id id').0 same in
        full ch (λ q. n (sym e ∙ q)) (subst (λ x. lookup x s.derived.channels ≡ some ch) (sym e) l)
    | inr differ ↦ f id' ch (ground arith) n l
  ])
  Finds-skip id ids _ full (somewhere id' ch n l h) = somewhere id' ch n l h

  find_channel-Finds :
      (ids : List ℕ)
      → ((id : ℕ) → contains id ids ≡ true → lookup id s.derived.channels ≢ none)
      → Finds ids (find_channel os preferred ids (s, g))
  unfolding find_channel contains
  find_channel-Finds [] known = nowhere (λ id ch c n l. cc (c))
  find_channel-Finds (id ∷ ids) known = elim (Bool-cases (id == preferred)) [
    | inl same ↦ rw same (
        Finds-skip id ids _ (λ ch n l. absurd (n ((==_iff id preferred).0 same)))
          (find_channel-Finds ids (λ x c. known x (ground arith))))
    | inr differ ↦ elim (Option-cases (lookup id s.derived.channels)) [
      | inl none_there ↦ absurd (known id (ground (arith, ==_iff id id)) none_there)
      | inr (ch, there) ↦ elim (Bool-cases (has_space os ch)) [
        | inl space ↦
            rw (differ, try_channel_lem os s g id ch there (free id ch there) true space)
              (somewhere id ch (ne_of_test id preferred differ) there space)
        | inr full ↦
            rw (differ, try_channel_lem os s g id ch there (free id ch there) false full)
              (Finds-skip id ids _ (λ ch' n l. cc (l, there, full))
                (find_channel-Finds ids (λ x c. known x (ground arith))))
      ]
    ]
  ]

  create_channel_lem :
      (jansson : Jansson) (reads : ℕ)
      → create_channel os jansson reads (s, g) ≡ (
          let id = first_free (suc (length s.derived.channels)) s.derived.channels 1 in
          bind_outcome
            (get_channel os jansson reads id (s, g))
            (λ _ t. bind_outcome (lock_pool os id t) (λ _ t'. (ok id, t'))))
  unfolding create_channel
  create_channel_lem jansson reads = refl

  -- What find_other makes of the end of the search.
  after_search :
      (jansson : Jansson) (reads : ℕ) (pch : Channel os.Kernel)
      → lookup preferred s.derived.channels ≡ some pch
      → has_space os pch ≡ false
      → (r : Outcome (Option ℕ) × State os.Kernel (Lobby os.Kernel))
      → Finds (keys s.derived.channels) r
      → Chooses os jansson reads preferred s g (
          bind_outcome r
            (λ found. elim found [ none ↦ create_channel os jansson reads | some id ↦ return id ]))
  after_search jansson reads pch there full _ (somewhere id ch n l h) =
      other pch there full id ch n l h
  after_search jansson reads pch there full _ (nowhere f) =
      created
        (λ id ch l. elim (Bool-cases (id == preferred)) [
          | inl same ↦ cc (l, there, full, (==_iff id preferred).0 same)
          | inr differ ↦
              f id ch (contains-keys id s.derived.channels ch l) (ne_of_test id preferred differ) l
        ])
        (first_free (suc (length s.derived.channels)) s.derived.channels 1)
        (first_free_lem s.derived.channels) _ (create_channel_lem jansson reads)

-- With the preferred channel there and no pools locked, `find_or_create_channel` takes the preferred
-- channel if it has space, and only if that is full another channel that has space, and leaves all channels as they were
-- but the pools of that one locked; only if no channel has space does it make one, under a free id.
pub find_or_create_channel-Chooses :
    (os : Os) (jansson : Jansson) (reads preferred : ℕ) (s : Server (Lobby os.Kernel))
    (g : Globals os.Kernel) (ch : Channel os.Kernel)
    → AllFree s
    → lookup preferred s.derived.channels ≡ some ch
    → Chooses os jansson reads preferred s g
        (find_or_create_channel os jansson reads preferred (s, g))
unfolding find_or_create_channel find_other
find_or_create_channel-Chooses os jansson reads preferred s g ch free there =
    elim (Bool-cases (has_space os ch)) [
      | inl space ↦
          rw
            (
              get_channel_there os s g preferred ch there jansson reads,
              try_channel_lem os s g preferred ch there (free preferred ch there) true space,
            )
            (chosen ch there space)
      | inr full ↦
          rw
            (
              get_channel_there os s g preferred ch there jansson reads,
              try_channel_lem os s g preferred ch there (free preferred ch there) false full,
            )
            (after_search os preferred s g free jansson reads ch there full _ (
              find_channel-Finds os preferred s g free (keys s.derived.channels)
                (λ id c. lookup-keys id s.derived.channels c)))
    ]
