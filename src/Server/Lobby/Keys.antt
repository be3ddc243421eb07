-- ===== src/Server/Lobby/Keys.antt =====
-- The numbers of the channels are distinct, whatever is put into the map or swept out of it
-- (src/server/channel_server.cpp).
use cpp_chat_channel.Base.{
  ℕ, ◌≡◌, refl, none, some, List, [], ◌∷◌, false, arith, ◌==◌, ==_iff, nat_eq, ◌||◌,
}
use cpp_chat_channel.Base.Assoc.{lookup, insert, contains, IsDistinct}
use cpp_chat_channel.Server.Lobby.{Channel, keys}
use cpp_chat_channel.Server.Lobby.Expiry.{surviving}

module _ {A : Type 0} where
  contains-keys-insert :
      (id j : ℕ) (v : A) (m : List (ℕ × A))
      → contains j (keys (insert id v m)) ≡ (id == j || contains j (keys m))
  unfolding contains insert
  contains-keys-insert id j v [] = refl
  contains-keys-insert id j v (entry ∷ m) =
      ground
        (arith, ==_iff id j, ==_iff entry.0 id, ==_iff entry.0 j, contains-keys-insert id j v m)

  pub insert-IsDistinct :
      (id : ℕ) (v : A) (m : List (ℕ × A)) → IsDistinct (keys m) → IsDistinct (keys (insert id v m))
  unfolding contains insert
  insert-IsDistinct id v [] d = (refl, tt)
  insert-IsDistinct id v (entry ∷ m) (fresh, d) = ground (
    arith,
    ==_iff entry.0 id,
    ==_iff id entry.0,
    contains-keys-insert id entry.0 v m,
    insert-IsDistinct id v m d,
  )

  lookup_absent : (id : ℕ) (m : List (ℕ × A)) → contains id (keys m) ≡ false → lookup id m ≡ none
  unfolding contains lookup
  lookup_absent id [] h = refl
  lookup_absent id (entry ∷ m) h = ground (arith, lookup_absent id m)

module _ {K : Type 0} (now : ℕ) where
  contains-surviving :
      (id : ℕ) (m : List (ℕ × Channel K))
      → contains id (keys m) ≡ false
      → contains id (keys (surviving now m)) ≡ false
  unfolding contains
  contains-surviving id [] h = refl
  contains-surviving id (entry ∷ m) h = ground (arith, contains-surviving id m)

  pub surviving-IsDistinct :
      (m : List (ℕ × Channel K)) → IsDistinct (keys m) → IsDistinct (keys (surviving now m))
  unfolding contains
  surviving-IsDistinct [] d = tt
  surviving-IsDistinct (entry ∷ m) (fresh, d) =
      ground (arith, contains-surviving entry.0 m fresh, surviving-IsDistinct m d)

  -- A channel that is kept was there.
  pub lookup-surviving :
      (id : ℕ) (ch : Channel K) (m : List (ℕ × Channel K))
      → IsDistinct (keys m)
      → lookup id (surviving now m) ≡ some ch
      → lookup id m ≡ some ch
  unfolding lookup contains
  lookup-surviving id ch [] d h = h
  lookup-surviving id ch (entry ∷ m) (fresh, d) h = ground (
    arith,
    ==_iff entry.0 id,
    lookup-surviving id ch m d,
    lookup_absent id (surviving now m),
    contains-surviving id m,
  )
