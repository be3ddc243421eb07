-- ===== src/Client/Display.antt =====
-- How the client for Windows cuts an array into its objects (src/client/client_win.cpp).
use cpp_chat_channel.Base.{
  ℕ, zero, suc, ◌<◌, ◌≡◌, refl, ap, ◌∙◌, none, some, List, [], ◌∷◌, ◌++◌, arith, nat_eq, Bytes,
  codes, length, take, drop, map, All, length-append,
}
use cpp_chat_channel.Text.{find}
use cpp_chat_channel.Client.Endpoints.{Lacks, find-append, find-absent, pair_path}
use cpp_chat_channel.Client.Windows.{close_at, open_at, first_object, objects, parts}

-- A separator stands where another object follows.
abbrev pub gap : Bytes → List Bytes → Bytes
gap sep [] = []
gap sep (body ∷ bodies) = sep

-- The objects of an array with a separator between them, and the bracket at the end.
abbrev pub array_text : Bytes → List Bytes → Bytes
array_text sep [] = codes "]"
array_text sep (body ∷ bodies) = 123 ∷ (body ++ (125 ∷ (gap sep bodies ++ array_text sep bodies)))

-- An object as it stands in the array.
abbrev pub object_text : Bytes → Bytes
object_text body = 123 ∷ (body ++ 125 ∷ [])

Lacks-append : (c : ℕ) (s t : Bytes) → Lacks c s → Lacks c t → Lacks c (s ++ t)
Lacks-append c [] t h k = k
Lacks-append c (d ∷ s) t h k = (h.0, Lacks-append c s t h.1 k)

drop_here : (s t : Bytes) → drop (length s) (s ++ t) ≡ t
drop_here [] t = refl
drop_here (c ∷ s) t = drop_here s t

take_object : (body rest : Bytes) → take (suc (length body)) (body ++ 125 ∷ rest) ≡ body ++ 125 ∷ []
take_object [] rest = refl
take_object (c ∷ body) rest = ap (◌∷◌ c) (take_object body rest)

drop_object : (body rest : Bytes) → drop (suc (length body)) (body ++ 125 ∷ rest) ≡ rest
drop_object [] rest = refl
drop_object (c ∷ body) rest = drop_object body rest

first_object_here :
    (before body rest : Bytes)
    → Lacks 123 before
    → Lacks 125 body
    → first_object (before ++ 123 ∷ (body ++ 125 ∷ rest)) ≡ some (object_text body, rest)
unfolding first_object open_at close_at
first_object_here before body rest b h =
    let s = 123 ∷ (body ++ 125 ∷ rest) in
    ap (λ p. open_at p (before ++ s)) (find-append 123 [] before (body ++ 125 ∷ rest) b)
    ∙ ap (λ t. close_at (find (codes "}") t) t) (drop_here before s)
    ∙ ap (λ p. close_at p s) (find-append 125 [] (123 ∷ body) rest (refl, h))
    ∙ ap some (pair_path (ap (◌∷◌ 123) (take_object body rest)) (drop_object body rest))

first_object-none : (s : Bytes) → Lacks 123 s → first_object s ≡ none
unfolding first_object open_at
first_object-none s h = ap (λ p. open_at p s) (find-absent 123 [] s h)

gap-Lacks : (sep : Bytes) (bodies : List Bytes) → Lacks 123 sep → Lacks 123 (gap sep bodies)
gap-Lacks sep [] h = tt
gap-Lacks sep (body ∷ bodies) h = h

objects-array_text :
    (fuel : ℕ) (sep : Bytes) (bodies : List Bytes) (before : Bytes)
    → Lacks 123 sep
    → Lacks 123 before
    → All (λ body. Lacks 125 body) bodies
    → length bodies < fuel
    → objects fuel (before ++ array_text sep bodies) ≡ map object_text bodies
unfolding objects
objects-array_text zero sep bodies before h b a l = absurd (omega arith)
objects-array_text (suc fuel) sep [] before h b a l = rw (
  first_object-none (before ++ codes "]") (Lacks-append 123 before (codes "]") b (refl, tt)),
  objects,
)
objects-array_text (suc fuel) sep (body ∷ bodies) before h b a l =
    rw (first_object_here before body (gap sep bodies ++ array_text sep bodies) b a.0, objects)
      (ap (◌∷◌ (object_text body)) (
        objects-array_text fuel sep bodies (gap sep bodies) h (gap-Lacks sep bodies h) a.1
          (omega arith)))

length-array_text :
    (sep : Bytes) (bodies : List Bytes) → length bodies < length (array_text sep bodies)
length-array_text sep [] = omega arith
length-array_text sep (body ∷ bodies) = omega (
  arith,
  length-append body (125 ∷ (gap sep bodies ++ array_text sep bodies)),
  length-append (gap sep bodies) (array_text sep bodies),
  length-array_text sep bodies,
)

-- For an array of objects in whose texts no `}` stands, as a server writes it, the client for Windows
-- prints each object once, in order: the fuel is enough, and nothing else is taken for an object.
pub parts-array_text :
    (sep : Bytes) (bodies : List Bytes)
    → Lacks 123 sep
    → All (λ body. Lacks 125 body) bodies
    → parts (91 ∷ array_text sep bodies) ≡ map object_text bodies
unfolding parts
parts-array_text sep bodies h a =
    objects-array_text (suc (length (array_text sep bodies))) sep bodies [] h tt a
      (omega (arith, length-array_text sep bodies))
