-- ===== src/Server/RoundTrip.antt =====
-- What the Write methods write is what readString and readArray read.
use Prim.Native.Char.{Char, code}
use mathlib.Core.List.{append_assoc}
use rediqueue.Base.{
  suc, ◌+◌, ◌≤◌, ◌≡◌, refl, sym, ap, ◌∙◌, String, false, List, [], ◌∷◌, ◌++◌, map, some, length,
  take, drop, ltb, nat_beq, arith, All, length-append,
}
use rediqueue.Base.Int.{ℤ, pos, negsuc, max_int}
use rediqueue.Base.Text.{atoi}
use rediqueue.Base.Decimal.{print_int, decimal, AreDigits, atoi-print_int, decimal-AreDigits}
use rediqueue.Reply.{Frame, error, inline, bulk, null, array, int}
use rediqueue.Server.Proto.{
  Bytes, text, read_line, line_body, read_bulk, read_field, read_string, read_fields, read_header,
  read_array,
}
use rediqueue.Server.Wire.{bytes, crlf, line_of, wire, wire_all}

-- No byte of the text ends a line.
abbrev pub IsLine : String → Type 0
IsLine String.[] = Unit
IsLine (String.◌∷◌ c s) = (nat_beq (code c) 10 ≡ false) × IsLine s

text-bytes : (s : String) → text (bytes s) ≡ s
text-bytes String.[] = refl
text-bytes (String.◌∷◌ c s) = ap (String.◌∷◌ c) (text-bytes s)

read_line-bytes :
    (s : String) (rest : Bytes)
    → IsLine s
    → read_line (bytes s ++ (crlf ++ rest)) ≡ some (bytes s ++ crlf, rest)
unfolding read_line
read_line-bytes String.[] rest h = refl
read_line-bytes (String.◌∷◌ c s) rest (hc, hs) = rw (read_line, hc, read_line-bytes s rest hs) refl

take-append : (xs ys : Bytes) → take (length xs) (xs ++ ys) ≡ xs
take-append [] ys = refl
take-append (x ∷ xs) ys = ap (λ zs. x ∷ zs) (take-append xs ys)

drop-append : (xs ys : Bytes) → drop (length xs) (xs ++ ys) ≡ ys
drop-append [] ys = refl
drop-append (x ∷ xs) ys = drop-append xs ys

line_body-line_of : (mark : Char) (s : String) → line_body (line_of mark s) ≡ bytes s
line_body-line_of mark s =
    ap (λ n. take n (bytes s ++ crlf)) (omega (arith, length-append (bytes s) crlf))
    ∙ take-append (bytes s) crlf

AreDigits-IsLine : (s : String) → AreDigits s → IsLine s
AreDigits-IsLine String.[] h = tt
AreDigits-IsLine (String.◌∷◌ c s) (lo, hi, h) = (ground (arith, lo), AreDigits-IsLine s h)

print_int-IsLine : (i : ℤ) → IsLine (print_int i)
unfolding print_int
print_int-IsLine (pos n) = AreDigits-IsLine (decimal n) (decimal-AreDigits n)
print_int-IsLine (negsuc n) = (refl, AreDigits-IsLine (decimal (suc n)) (decimal-AreDigits (suc n)))

-- A line is read whole, and is long enough.
read_line-line_of :
    (mark : Char) (s : String) (rest : Bytes)
    → nat_beq (code mark) 10 ≡ false
    → IsLine s
    → read_line (line_of mark s ++ rest) ≡ some (line_of mark s, rest)
unfolding read_line
read_line-line_of mark s rest hm hs =
    ap (λ l. read_line (mark ∷ l)) (append_assoc (bytes s) crlf rest)
    ∙ rw (read_line, hm, read_line-bytes s rest hs) refl

line_of-long : (mark : Char) (s : String) → ltb (length (line_of mark s)) 3 ≡ false
line_of-long mark s = ground (arith, length-append (bytes s) crlf)

-- What readString makes of a reply that is not an array; a nil is read as the empty text.
abbrev pub content : Frame → String
content (error e) = e
content (inline s) = s
content (bulk s) = s
content null = ""
content (int i) = print_int i
content (array n) = ""

-- The reply stands for itself, and its texts and numbers can be written.
abbrev pub IsField : Frame → Type 0
IsField (error e) = IsLine e
IsField (inline s) = IsLine s
IsField (bulk s) = length (bytes s) ≤ max_int
IsField null = Unit
IsField (int i) = Unit
IsField (array n) = ⊥

-- A line is read by its mark.
read_string-line_of :
    (mark : Char) (s : String) (rest : Bytes)
    → nat_beq (code mark) 10 ≡ false
    → IsLine s
    → read_string (line_of mark s ++ rest) ≡ read_field (line_of mark s) rest
unfolding read_string
read_string-line_of mark s rest hm hs =
    rw (read_line-line_of mark s rest hm hs, line_of-long mark s) refl

line_text : (mark : Char) (s : String) → text (line_body (line_of mark s)) ≡ s
line_text mark s = ap text (line_body-line_of mark s) ∙ text-bytes s

read_bulk-bytes :
    (s : String) (rest : Bytes)
    → read_bulk (pos (length (bytes s))) ((bytes s ++ crlf) ++ rest) ≡ some (s, rest)
unfolding read_bulk
read_bulk-bytes s rest =
    let n = length-append (bytes s) crlf in
    let long : ltb (length ((bytes s ++ crlf) ++ rest)) (length (bytes s) + 2) ≡ false =
      ground (arith, n, length-append (bytes s ++ crlf) rest) in
    let kept : take (length (bytes s)) ((bytes s ++ crlf) ++ rest) ≡ bytes s =
      ap (take (length (bytes s))) (append_assoc (bytes s) crlf rest)
      ∙ take-append (bytes s) (crlf ++ rest) in
    let left : drop (length (bytes s) + 2) ((bytes s ++ crlf) ++ rest) ≡ rest =
      ap (λ m. drop m ((bytes s ++ crlf) ++ rest)) (sym n) ∙ drop-append (bytes s ++ crlf) rest in
    rw (long, kept, text-bytes s, left) refl

atoi_nil : atoi "-1" ≡ some (negsuc 0)
unfolding atoi
atoi_nil = refl

-- A reply that is no array is read back by readString, which leaves what follows: every text is kept, also one with line
-- ends or with no bytes in a bulk string, provided that it is shorter than the greatest `int`, and that the text of an
-- error or of an inline reply has no line end.
pub read_string-wire :
    (f : Frame) (rest : Bytes) → IsField f → read_string (wire f ++ rest) ≡ some (content f, rest)
unfolding wire read_field
read_string-wire (error e) rest h =
    read_string-line_of "-" e rest refl h ∙ rw (line_text "-" e) refl
read_string-wire (inline s) rest h =
    read_string-line_of "+" s rest refl h ∙ rw (line_text "+" s) refl
read_string-wire (int i) rest h =
    read_string-line_of ":" (print_int i) rest refl (print_int-IsLine i)
    ∙ rw (line_text ":" (print_int i)) refl
read_string-wire null rest h =
    read_string-line_of "$" "-1" rest refl (refl, (refl, tt))
    ∙ rw (line_text "$" "-1", atoi_nil) refl
read_string-wire (bulk s) rest h =
    let size = print_int (pos (length (bytes s))) in
    ap read_string (append_assoc (line_of "$" size) (bytes s ++ crlf) rest)
    ∙ read_string-line_of "$" size ((bytes s ++ crlf) ++ rest) refl
        (print_int-IsLine (pos (length (bytes s))))
    ∙ rw (line_text "$" size, atoi-print_int (pos (length (bytes s))) (h, omega arith))
        (read_bulk-bytes s rest)
read_string-wire (array n) rest h = absurd h

-- A request as clients send it: an array of bulk strings.
unfoldable pub request_bytes : List String → Bytes
unfolding wire wire_all
request_bytes args = wire (array (pos (length args))) ++ wire_all (map bulk args)

-- The number of the arguments and the length of each fit an `int`.
unfoldable pub Sendable : List String → Type 0
Sendable args = (length args ≤ max_int) × All (λ s. length (bytes s) ≤ max_int) args

read_fields-wire_all :
    (args : List String) (rest : Bytes)
    → All (λ s. length (bytes s) ≤ max_int) args
    → read_fields (length args) (wire_all (map bulk args) ++ rest) ≡ some (args, rest)
unfolding read_fields wire_all
read_fields-wire_all [] rest h = refl
read_fields-wire_all (s ∷ args) rest (h, hs) =
    ap (read_fields (suc (length args)))
      (append_assoc (wire (bulk s)) (wire_all (map bulk args)) rest)
    ∙ rw
        (
          read_string-wire (bulk s) (wire_all (map bulk args) ++ rest) h,
          read_fields-wire_all args rest hs,
        )
        refl

-- A request in the form that clients send is read whole, argument by argument, whatever bytes the arguments hold, and
-- what follows it is left, where the number of its arguments and the length of each fit an `int`.
pub read_array-request_bytes :
    (args : List String) (rest : Bytes)
    → Sendable args
    → read_array (request_bytes args ++ rest) ≡ some (args, rest)
unfolding read_array read_header request_bytes Sendable
read_array-request_bytes args rest (n, hs) =
    let size = print_int (pos (length args)) in
    ap read_array (append_assoc (line_of "*" size) (wire_all (map bulk args)) rest)
    ∙ rw
        (
          read_line-line_of "*" size (wire_all (map bulk args) ++ rest) refl
              (print_int-IsLine (pos (length args))),
          line_of-long "*" size,
          line_text "*" size,
          atoi-print_int (pos (length args)) (n, omega arith),
        )
        (read_fields-wire_all args rest hs)
