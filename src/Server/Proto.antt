-- ===== src/Server/Proto.antt =====
-- server/proto.go: the requests of a client, read from its connection. The reader is the list of the
-- bytes that are still to come, as characters; `bufio.Reader` fails when they end too soon.
use Prim.Native.Char.{Char, code}
use rediqueue.Base.{
  ℕ, zero, suc, ◌+◌, ◌-◌, String, Bool, true, false, List, [], ◌∷◌, Option, none, some, length,
  take, drop, ltb, nat_beq, if◌then◌else◌, ◌>>=◌,
}
use rediqueue.Base.Int.{ℤ, pos, negsuc, pos_part}
use rediqueue.Base.Text.{atoi}

abbrev pub Bytes : Type 0
Bytes = List Char

-- The text of some bytes.
abbrev pub text : Bytes → String
text [] = String.[]
text (c ∷ cs) = String.◌∷◌ c (text cs)

-- rd.ReadString('\n'): the line with its end, and what follows; `none` at the end of the input.
unfoldable pub read_line : Bytes → Option (Bytes × Bytes)
read_line [] = none
read_line (c ∷ cs) = elim (nat_beq (code c) 10) [
  | true ↦ some (c ∷ [], cs)
  | false ↦ (do (line, rest) ← read_line cs; some (c ∷ line, rest))
]

-- line[1 : len(line)-2], for a line of three bytes at least
abbrev pub line_body : Bytes → Bytes
line_body line = take (length line - 3) (drop 1 line)

-- buf[:length], of length+2 bytes read
unfoldable pub read_bulk : ℤ → Bytes → Option (String × Bytes)
read_bulk (negsuc n) rest = some ("", rest)
read_bulk (pos n) rest =
    if ltb (length rest) (n + 2) then none else some (text (take n rest), drop (n + 2) rest)

abbrev pub head_is : ℕ → Bytes → Bool
head_is n [] = false
head_is n (c ∷ cs) = nat_beq (code c) n

-- The `switch` of `readString` on the first byte of a line.
unfoldable pub read_field : Bytes → Bytes → Option (String × Bytes)
unfolding read_bulk
read_field line rest =
    if head_is b'+' line
    then some (text (line_body line), rest)
    else if head_is b'-' line
    then some (text (line_body line), rest)
    else if head_is b':' line
    then some (text (line_body line), rest)
    else if head_is b'$' line
    then (do n ← atoi (text (line_body line)); read_bulk n rest)
    else none

-- `none` is an error, which ends the connection.
unfoldable pub read_string : Bytes → Option (String × Bytes)
unfolding read_line read_field
read_string rd = do
  (line, rest) ← read_line rd
  (if ltb (length line) 3 then none else read_field line rest)

-- The loop over the fields.
unfoldable pub read_fields : ℕ → Bytes → Option (List String × Bytes)
unfolding read_string
read_fields zero rd = some ([], rd)
read_fields (suc l) rd = do
  (s, rest) ← read_string rd
  (fields, rest') ← read_fields l rest
  some (s ∷ fields, rest')

-- The `switch` of `readArray`: the number of fields, none where it is negative, and the fields.
unfoldable pub read_header : Bytes → Bytes → Option (List String × Bytes)
unfolding read_fields
read_header line rest =
    if head_is b'*' line
    then (do l ← atoi (text (line_body line)); read_fields (pos_part l) rest)
    else none

unfoldable pub read_array : Bytes → Option (List String × Bytes)
unfolding read_line read_header
read_array rd = do
  (line, rest) ← read_line rd
  (if ltb (length line) 3 then none else read_header line rest)
