-- ===== src/Client/Quoted.antt =====
-- The message requests of src/client/client_win.cpp as texts of JSON.
use cpp_chat_channel.Base.{
  ℕ, ◌≤◌, ◌≡◌, refl, sym, ap, ◌∙◌, subst, inl, inr, List, [], ◌∷◌, ◌++◌, false, arith, ◌==◌, ==_iff,
  nat_eq, Bytes, codes, All, Bool-cases, append_assoc,
}
use cpp_chat_channel.Base.Decimal.{nat_to_string}
use cpp_chat_channel.Json.{Value, text, number}
use cpp_chat_channel.Json.Grammar.{
  quote, backslash, IsQuoted, closed, plain, escaped, IsQuoted-plain, is_text, is_number,
  last_member, next_member, IsObject, is_object,
}
use cpp_chat_channel.Client.Windows.{escape_char, json_escape, message_request}

escape_char-plain :
    (c : ℕ) → 32 ≤ c → (c == 34) ≡ false → (c == 92) ≡ false → escape_char c ≡ c ∷ []
unfolding escape_char
escape_char-plain c h e d = ground arith

IsQuoted-escape_char :
    (c : ℕ) (s t : Bytes) → 32 ≤ c → IsQuoted s t → IsQuoted (escape_char c ++ s) (c ∷ t)
unfolding escape_char
IsQuoted-escape_char c s t h q = elim (Bool-cases (c == 34)) [
  | inl e ↦
      subst (λ x. IsQuoted (escape_char x ++ s) (x ∷ t)) (sym ((==_iff c 34).0 e)) (escaped quote q)
  | inr e ↦ elim (Bool-cases (c == 92)) [
    | inl d ↦
        subst (λ x. IsQuoted (escape_char x ++ s) (x ∷ t)) (sym ((==_iff c 92).0 d))
          (escaped backslash q)
    | inr d ↦ rw (escape_char-plain c h e d) (plain c h (λ x. ground arith) (λ x. ground arith) q)
  ]
]

-- A text without control characters.
abbrev pub IsClean : Bytes → Type 0
IsClean t = All (λ c. 32 ≤ c) t

-- What json_escape writes of a clean text is a string of JSON for that text.
pub IsQuoted-json_escape : (t : Bytes) → IsClean t → IsQuoted (json_escape t) t
unfolding json_escape
IsQuoted-json_escape [] h = closed
IsQuoted-json_escape (c ∷ t) (large, h) =
    IsQuoted-escape_char c (json_escape t) t large (IsQuoted-json_escape t h)

-- The members of a message request.
abbrev pub members : Bytes → ℕ → List (Bytes × Value)
members said now =
    (codes "type", text (codes "message"))
    ∷ (codes "text", text said)
    ∷ (codes "timestamp", number now)
    ∷ []

-- A message request for a clean text is the text of the object with these members.
pub IsObject-message_request :
    (said : Bytes) (now : ℕ) → IsClean said → IsObject (message_request said now) (members said now)
unfolding message_request
IsObject-message_request said now h =
    let key : IsQuoted (codes "type") (codes "type") = IsQuoted-plain (codes "type") refl in
    let kind : IsQuoted (codes "message") (codes "message") =
      IsQuoted-plain (codes "message") refl in
    let name : IsQuoted (codes "text") (codes "text") = IsQuoted-plain (codes "text") refl in
    let time : IsQuoted (codes "timestamp") (codes "timestamp") =
      IsQuoted-plain (codes "timestamp") refl in
    let blank : All (λ c. c ≡ 32) (codes " ") = (refl, tt) in
    let escaped_text = json_escape said in
    let rest = codes ", \"timestamp\":" ++ nat_to_string now in
    let object = is_object (
      next_member (codes " ") key (is_text kind) blank (
        next_member (codes " ") name (is_text (IsQuoted-json_escape said h)) blank
          (last_member time (is_number now)))) in
    subst (λ t. IsObject t (members said now))
      (ap (λ r. codes "{\"type\":\"message\", \"text\":\"" ++ r)
        (append_assoc (escaped_text ++ 34 ∷ []) rest (125 ∷ [])
          ∙ append_assoc escaped_text (34 ∷ []) (rest ++ 125 ∷ [])))
      object
