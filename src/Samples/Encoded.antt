-- ===== src/Samples/Encoded.antt =====
-- A stand-in for serde_json: a value is a list of numbers, the first of which says what it is, and
-- its text writes each number in unary. The laws hold of it.
use rust_ai_router.Base.{
  ℕ, zero, suc, ◌+◌, ◌≡◌, refl, sym, ap, ◌∙◌, Option, none, some, List, [], ◌∷◌, ◌++◌, Str, map,
  map_opt, and_then, is_empty, not, Ascii, from_utf8_lossy-Ascii, ◌==◌, if◌then◌else◌, arith,
}
use mathlib.Core.List.{append-nil, append_assoc}
use rust_ai_router.Base.Dict.{Dict}
use rust_ai_router.Json.{Json, JsonLaws}

-- A list of lists, each of which a 0 ends.
unfoldable pub pack : List Str → Str
pack [] = []
pack (x ∷ xs) = map suc x ++ 0 ∷ pack xs

unfoldable pub unpack : Str → Str → List Str
unpack item [] = []
unpack item (zero ∷ s) = item ∷ unpack [] s
unpack item (suc c ∷ s) = unpack (item ++ c ∷ []) s

unpack-item : (x item s : Str) → unpack item (map suc x ++ 0 ∷ s) ≡ (item ++ x) ∷ unpack [] s
unfolding unpack
unpack-item [] item s = ap (λ i. i ∷ unpack [] s) (sym (append-nil item))
unpack-item (c ∷ x) item s =
    unpack-item x (item ++ c ∷ []) s ∙ ap (λ i. i ∷ unpack [] s) (append_assoc item (c ∷ []) x)

unpack-pack : (xs : List Str) → unpack [] (pack xs) ≡ xs
unfolding pack unpack
unpack-pack [] = refl
unpack-pack (x ∷ xs) = unpack-item x [] (pack xs) ∙ ap (λ r. x ∷ r) (unpack-pack xs)

unfoldable pub flatten : Dict Str → List Str
flatten [] = []
flatten ((k, v) ∷ d) = k ∷ v ∷ flatten d

unfoldable pub pairs : List Str → Dict Str
pairs [] = []
pairs (k ∷ []) = []
pairs (k ∷ v ∷ xs) = (k, v) ∷ pairs xs

pairs-flatten : (d : Dict Str) → pairs (flatten d) ≡ d
unfolding pairs flatten
pairs-flatten [] = refl
pairs-flatten ((k, v) ∷ d) = ap (λ r. (k, v) ∷ r) (pairs-flatten d)

-- The text: a `1` for each unit, a `,` after each number, and a `.` at the end.
unfoldable pub ones : ℕ → Str → Str
ones zero s = b',' ∷ s
ones (suc n) s = b'1' ∷ ones n s

unfoldable pub print : Str → Str
print [] = b'.' ∷ []
print (c ∷ s) = ones c (print s)

unfoldable pub parse : ℕ → Str → Option Str
parse n [] = none
parse n (c ∷ s) =
    let one = parse (suc n) s in
    let next = parse 0 s in
    if c == b'1' then one else if c == b',' then map_opt (λ r. n ∷ r) next else some []

parse-ones : (n k : ℕ) (t : Str) → parse k (ones n t) ≡ map_opt (λ r. (k + n) ∷ r) (parse 0 t)
unfolding ones parse
parse-ones zero k t =
    let e : k + 0 ≡ k = omega arith in ap (λ m. map_opt (λ r. m ∷ r) (parse 0 t)) (sym e)
parse-ones (suc n) k t =
    let e : suc k + n ≡ k + suc n = omega arith in
    parse-ones n (suc k) t ∙ ap (λ m. map_opt (λ r. m ∷ r) (parse 0 t)) e

pub parse-print : (s : Str) → parse 0 (print s) ≡ some s
unfolding print parse
parse-print [] = refl
parse-print (c ∷ s) =
    let e : 0 + c ≡ c = omega arith in parse-ones c 0 (print s) ∙ rw (parse-print s, e) refl

ones-Ascii : (n : ℕ) (s : Str) → Ascii s → Ascii (ones n s)
unfolding ones
ones-Ascii zero s h = (omega arith, h)
ones-Ascii (suc n) s h = (omega arith, ones-Ascii n s h)

print-Ascii : (s : Str) → Ascii (print s)
unfolding print
print-Ascii [] = (omega arith, tt)
print-Ascii (c ∷ s) = ones-Ascii c (print s) (print-Ascii s)

-- What follows the mark of a kind.
abbrev pub after_mark : ℕ → Str → Option Str
after_mark kind [] = none
after_mark kind (c ∷ s) = if c == kind then some s else none

abbrev pub only_item : Str → Option ℕ
only_item [] = none
only_item (n ∷ s) = some n

unfoldable pub sample_as_u64 : Str → Option ℕ
sample_as_u64 v = and_then (after_mark 1 v) only_item

unfoldable pub sample_as_array : Str → Option (List Str)
unfolding unpack
sample_as_array v = map_opt (unpack []) (after_mark 3 v)

unfoldable pub sample_as_object : Str → Option (Dict Str)
unfolding unpack pairs
sample_as_object v = map_opt (λ s. pairs (unpack [] s)) (after_mark 4 v)

instance abbrev pub encoded : Json Str
encoded = record {
  null = [];
  number = λ n. 1 ∷ n ∷ [];
  string = λ s. 2 ∷ s;
  array = λ vs. 3 ∷ pack vs;
  object = λ d. 4 ∷ pack (flatten d);
  is_null = is_empty;
  as_bool = λ v. map_opt (λ s. not (is_empty s)) (after_mark 5 v);
  as_u64 = sample_as_u64;
  as_str = after_mark 2;
  as_array = sample_as_array;
  as_object = sample_as_object;
  from_slice = parse 0;
  to_vec = print;
}

pub encoded_laws : JsonLaws Str
unfolding sample_as_u64 sample_as_array sample_as_object parse
encoded_laws = record {
  as_str-string = λ s. refl;
  as_u64-number = λ n h. refl;
  as_array-array = λ vs. ap some (unpack-pack vs);
  as_object-object = λ d. ap some (ap pairs (unpack-pack (flatten d)) ∙ pairs-flatten d);
  as_object-array = λ vs. refl;
  from_slice-to_vec = λ k d. parse-print _;
  from_utf8_lossy-to_vec = λ v. from_utf8_lossy-Ascii (print v) (print-Ascii v);
  from_slice-nil = refl;
}
