-- ===== src/Client/Typing.antt =====
-- The text that is being typed (src/client/client.cpp, src/client/client_win.cpp): it is printable at
-- all times.
use cpp_chat_channel.Base.{
  ℕ, zero, suc, ◌≡◌, refl, [], ◌∷◌, ◌++◌, Bool, true, false, ◌||◌, ◌⊎◌, length, take, ◌+◌, ◌%◌, ◌^◌,
  ◌==◌, nat_eq, if◌then◌else◌, Bytes, All, inl, inr, drop,
}
use cpp_chat_channel.Effects.{Outcome, ok, throw, hangs, M, bind_outcome}
use cpp_chat_channel.Os.{Fd}
use cpp_chat_channel.Client.{Host, Read, bytes, interrupted, failed, Console, print, refresh_line}
use cpp_chat_channel.Client.Frames.{
  Peek, pending, unreadable, whole, peek, take_loop, take_frames, take_more, take_read,
}
use cpp_chat_channel.Client.Editor.{
  Requests, pop_back, is_printable, submit, enter, on_enter, request, edit, on_key,
}

pub if_either :
    {S A : Type 0} (P : S → Type 0) (b : Bool) (x y : Outcome A × S)
    → P x.1
    → P y.1
    → P (if b then x else y).1
if_either P true x y p q = p
if_either P false x y p q = q

-- A round's finding with its equation.
Peek-cases : (p : Peek) → (p ≡ pending) ⊎ (p ≡ unreadable) ⊎ ((len : ℕ) × (p ≡ whole len))
Peek-cases pending = inl refl
Peek-cases unreadable = inr (inl refl)
Peek-cases (whole len) = inr (inr (len, refl))

abbrev pub IsPrintable : Bytes → Type 0
IsPrintable text = All (λ c. is_printable c ≡ true) text

pop_back-IsPrintable : (text : Bytes) → IsPrintable text → IsPrintable (pop_back text)
unfolding pop_back
pop_back-IsPrintable [] h = h
pop_back-IsPrintable (c ∷ []) h = tt
pop_back-IsPrintable (c ∷ d ∷ s) h = (h.0, pop_back-IsPrintable (d ∷ s) h.1)

snoc-IsPrintable :
    (text : Bytes) (c : ℕ) → IsPrintable text → is_printable c ≡ true → IsPrintable (text ++ c ∷ [])
snoc-IsPrintable [] c h p = (p, tt)
snoc-IsPrintable (d ∷ s) c h p = (h.0, snoc-IsPrintable s c h.1 p)

if_keeps :
    {A : Type 0} (P : A → Type 0) {x y : A} (b : Bool)
    → (b ≡ true → P x)
    → (b ≡ false → P y)
    → P (if b then x else y)
if_keeps P true p q = p refl
if_keeps P false p q = q refl

-- What follows an outcome and keeps a property of the state keeps it after every outcome.
pub bind_outcome_keeps :
    {S A B : Type 0} (P : S → Type 0) (r : Outcome A × S) (f : A → M S B)
    → P r.1
    → ((a : A) (s : S) → P s → P (f a s).1)
    → P (bind_outcome r f).1
bind_outcome_keeps P (ok a, s) f p k = k a s p
bind_outcome_keeps P (throw e, s) f p k = p
bind_outcome_keeps P (hangs, s) f p k = p

abbrev pub Typed : {K : Type 0} → Console × K → Type 0
Typed s = IsPrintable s.0.input_buffer

module _ (host : Host) (requests : Requests) (fd : Fd) where
  edit-IsPrintable :
      (key : ℕ) (text : Bytes) → IsPrintable text → IsPrintable (edit host requests fd key text)
  unfolding edit
  edit-IsPrintable key text h =
      if_keeps IsPrintable (key == 127 || key == 8) (λ _. pop_back-IsPrintable text h)
        (λ _. if_keeps IsPrintable (is_printable key) (snoc-IsPrintable text key h) (λ _. h))

  submit-Typed : (s : Console × host.Kernel) → Typed s → Typed (submit host requests fd s).1
  unfolding submit
  submit-Typed (c, k) h =
      bind_outcome_keeps Typed
        (
          (request host requests fd c.input_buffer k).0,
          (c, (request host requests fd c.input_buffer k).1),
        )
        _ h (λ _ s p. tt)

  enter-Typed :
      (text : Bytes) (s : Console × host.Kernel) → Typed s → Typed (enter host requests fd text s).1
  unfolding enter
  enter-Typed [] s h = h
  enter-Typed (c ∷ text) s h = submit-Typed s h

  pub on_key-Typed :
      (key : ℕ) (s : Console × host.Kernel) → Typed s → Typed (on_key host requests fd key s).1
  unfolding on_key on_enter refresh_line print
  on_key-Typed key (c, k) h =
      bind_outcome_keeps Typed _ _
        (if_keeps {A = Outcome (Unit {0}) × (Console × host.Kernel)} (λ r. Typed r.1)
          (key == 10 || key == 13) (λ _. enter-Typed c.input_buffer (c, k) h)
          (λ _. edit-IsPrintable key c.input_buffer h))
        (λ _ s p. p)

module _ {S : Type 0} (P : S → Type 0) (display : Bytes → M S Bool)
    (keeps : (payload : Bytes) (s : S) → P s → P (display payload s).1) where
  next_keeps :
      (n : ℕ)
      → ((acc : Bytes) (s : S) → P s → P (take_loop display n (acc, s)).1.1)
      → (len : ℕ) (acc : Bytes) (r : Outcome Bool × S) → P r.1
      → P
          (bind_outcome
            (r.0, (acc, r.1))
            (λ more t.
              if more
              then take_loop display n (drop ((4 + len) % 2 ^ 32) t.0, t.1)
              else (ok false, t))).1.1
  next_keeps n later len acc (ok true, s) h = later _ s h
  next_keeps n later len acc (ok false, s) h = h
  next_keeps n later len acc (throw e, s) h = h
  next_keeps n later len acc (hangs, s) h = h

  take_loop_keeps : (n : ℕ) (acc : Bytes) (s : S) → P s → P (take_loop display n (acc, s)).1.1
  unfolding take_loop
  take_loop_keeps zero acc s h = h
  take_loop_keeps (suc n) acc s h = elim (Peek-cases (peek acc)) [
    | inl e ↦ rw (e, take_loop) h
    | inr (inl e) ↦ rw (e, take_loop) h
    | inr (inr (len, e)) ↦
        rw (e, take_loop)
          (next_keeps n (take_loop_keeps n) len acc (display (take len (drop 4 acc)) s)
            (keeps (take len (drop 4 acc)) s h))
  ]

  pub take_read_keeps :
      (r : Read) (acc : Bytes) (s : S) → P s → P (take_read display r (acc, s)).1.1
  unfolding take_read take_more take_frames
  take_read_keeps interrupted acc s h = h
  take_read_keeps failed acc s h = h
  take_read_keeps (bytes b) acc s h =
      if_keeps {A = Outcome Bool × (Bytes × S)} (λ r. P r.1.1) {x = (ok false, (acc, s))}
        {y = take_frames display (acc ++ b, s)} (length b == 0) (λ _. h)
        (λ _. take_loop_keeps (suc (length (acc ++ b))) (acc ++ b) s h)
