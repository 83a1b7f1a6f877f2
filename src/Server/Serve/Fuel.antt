-- ===== src/Server/Serve/Fuel.antt =====
-- The loop of a connection ends: each round reads some bytes.
use rediqueue.Base.{
  ℕ, zero, suc, ◌+◌, ◌≤◌, ◌<◌, ◌≡◌, refl, ap, String, Bool, true, false, List, [], ◌∷◌, Option,
  none, some, length, length-drop, Returns, ltb, nat_beq, arith, if◌then◌else◌, ◌>>=◌,
}
use rediqueue.Base.Int.{ℤ, pos, negsuc, pos_part}
use rediqueue.Base.Text.{atoi}
use Prim.Native.Char.{Char, code}
use rediqueue.Session.Run.{Host, Outcome, returned, waiting, panic}
use rediqueue.Server.{dispatch}
use rediqueue.Server.Proto.{
  Bytes, read_line, line_body, read_bulk, head_is, text, read_field, read_string, read_fields,
  read_header, read_array,
}
use rediqueue.Server.Serve.{
  Hosts, later, Stop, Conn, flush_peer, after_dispatch, after_read, serve_peer,
}

-- What is left of the bytes is shorter by `n` at least.
unfoldable Shrinks : {A : Type 0} → ℕ → Bytes → Option (A × Bytes) → Type 0
Shrinks n rd none = Unit
Shrinks n rd (some (a, rest)) = length rest + n ≤ length rd

Shrinks-cons :
    {A B : Type 0} (n : ℕ) (f : A → B) (c : Char) (cs : Bytes) (o : Option (A × Bytes))
    → Shrinks n cs o
    → Shrinks n (c ∷ cs) (do (a, rest) ← o; some (f a, rest))
unfolding Shrinks
Shrinks-cons n f c cs none h = tt
Shrinks-cons n f c cs (some (a, rest)) h = omega (arith, h)

read_line-Shrinks : (rd : Bytes) → Shrinks 1 rd (read_line rd)
unfolding read_line Shrinks
read_line-Shrinks [] = tt
read_line-Shrinks (c ∷ cs) =
    elim (nat_beq (code c) 10)
      as (λ b. Shrinks 1 (c ∷ cs) (elim b [
        | true ↦ some (c ∷ [], cs)
        | false ↦ (do (line, rest) ← read_line cs; some (c ∷ line, rest))
      ])) [
        | true ↦ omega arith
        | false ↦ Shrinks-cons 1 (λ line. c ∷ line) c cs (read_line cs) (read_line-Shrinks cs)
      ]

Shrinks-if :
    {A : Type 0} (n : ℕ) (rd : Bytes) (b : Bool) (x y : Option (A × Bytes))
    → Shrinks n rd x
    → Shrinks n rd y
    → Shrinks n rd (if b then x else y)
Shrinks-if n rd true x y p q = p
Shrinks-if n rd false x y p q = q

Shrinks-trans :
    {A : Type 0} (n : ℕ) (rd rd' : Bytes) (o : Option (A × Bytes))
    → length rd' + n ≤ length rd
    → Shrinks 0 rd' o
    → Shrinks n rd o
unfolding Shrinks
Shrinks-trans n rd rd' none p q = tt
Shrinks-trans n rd rd' (some (a, rest)) p q = omega (arith, p, q)

Shrinks-weaken :
    {A : Type 0} (rd : Bytes) (o : Option (A × Bytes)) → Shrinks 1 rd o → Shrinks 0 rd o
unfolding Shrinks
Shrinks-weaken rd none p = tt
Shrinks-weaken rd (some (a, rest)) p = omega (arith, p)

Shrinks-bind :
    {A B : Type 0} (n : ℕ) (rd : Bytes) (o : Option (A × Bytes))
    (f : A → Bytes → Option (B × Bytes))
    → Shrinks n rd o
    → ((a : A) (rest : Bytes) → Shrinks 0 rest (f a rest))
    → Shrinks n rd (do (a, rest) ← o; f a rest)
unfolding Shrinks
Shrinks-bind n rd none f p q = tt
Shrinks-bind n rd (some (a, rest)) f p q = Shrinks-trans n rd rest (f a rest) p (q a rest)

Shrinks-int :
    {A : Type 0} (rd : Bytes) (o : Option ℤ) (f : ℤ → Option (A × Bytes))
    → ((i : ℤ) → Shrinks 0 rd (f i))
    → Shrinks 0 rd (do i ← o; f i)
unfolding Shrinks
Shrinks-int rd none f q = tt
Shrinks-int rd (some i) f q = q i

read_bulk-Shrinks : (n : ℤ) (rest : Bytes) → Shrinks 0 rest (read_bulk n rest)
unfolding read_bulk Shrinks
read_bulk-Shrinks (negsuc n) rest = omega arith
read_bulk-Shrinks (pos n) rest =
    Shrinks-if 0 rest (ltb (length rest) (n + 2)) _ _ tt (omega (arith, length-drop (n + 2) rest))

read_field-Shrinks : (line rest : Bytes) → Shrinks 0 rest (read_field line rest)
unfolding read_field Shrinks
read_field-Shrinks line rest =
    let whole : Shrinks 0 rest (some (text (line_body line), rest)) = omega arith in
    Shrinks-if 0 rest (head_is b'+' line) _ _ whole (
      Shrinks-if 0 rest (head_is b'-' line) _ _ whole (
        Shrinks-if 0 rest (head_is b':' line) _ _ whole (
          Shrinks-if 0 rest (head_is b'$' line) _ _
            (Shrinks-int rest (atoi (text (line_body line))) (λ n. read_bulk n rest)
              (λ n. read_bulk-Shrinks n rest))
            tt)))

read_string-Shrinks : (rd : Bytes) → Shrinks 1 rd (read_string rd)
unfolding read_string Shrinks
read_string-Shrinks rd =
    Shrinks-bind 1 rd (read_line rd) _ (read_line-Shrinks rd)
      (λ line rest. Shrinks-if 0 rest (ltb (length line) 3) _ _ tt (read_field-Shrinks line rest))

read_fields-Shrinks : (l : ℕ) (rd : Bytes) → Shrinks 0 rd (read_fields l rd)
unfolding read_fields Shrinks
read_fields-Shrinks zero rd = omega arith
read_fields-Shrinks (suc l) rd =
    Shrinks-bind 0 rd (read_string rd) _
      (Shrinks-weaken rd (read_string rd) (read_string-Shrinks rd))
      (λ s rest.
        Shrinks-bind 0 rest (read_fields l rest) _ (read_fields-Shrinks l rest)
          (λ fields rest'. omega arith))

read_header-Shrinks : (line rest : Bytes) → Shrinks 0 rest (read_header line rest)
unfolding read_header Shrinks
read_header-Shrinks line rest =
    Shrinks-if 0 rest (head_is b'*' line) _ _
      (Shrinks-int rest (atoi (text (line_body line))) (λ l. read_fields (pos_part l) rest)
        (λ l. read_fields-Shrinks (pos_part l) rest))
      tt

read_array-Shrinks : (rd : Bytes) → Shrinks 1 rd (read_array rd)
unfolding read_array Shrinks
read_array-Shrinks rd =
    Shrinks-bind 1 rd (read_line rd) _ (read_line-Shrinks rd)
      (λ line rest. Shrinks-if 0 rest (ltb (length line) 3) _ _ tt (read_header-Shrinks line rest))

Ends-if :
    (b : Bool) (x y : Option (Conn × Stop))
    → Returns x (λ e. Unit)
    → Returns y (λ e. Unit)
    → Returns (if b then x else y) (λ e. Unit)
Ends-if true x y p q = p
Ends-if false x y p q = q

-- The loop has an end where it has one behind its next round.
after_dispatch-Ends :
    (o : Outcome) (c : Conn) (k : Conn → Option (Conn × Stop))
    → ((c' : Conn) → c'.rd ≡ c.rd → Returns (k c') (λ e. Unit))
    → Returns (after_dispatch o c k) (λ e. Unit)
unfolding after_dispatch flush_peer
after_dispatch-Ends (returned broadcast w) c k ends =
    Ends-if w.peer.closed _ _ tt (ends (flush_peer c.rd c.sent w) refl)
after_dispatch-Ends (waiting cmd timeout w) c k ends = tt
after_dispatch-Ends panic c k ends = tt

after_read-Ends :
    (h : Host) (o : Option (List String × Bytes)) (c : Conn) (k : Conn → Option (Conn × Stop))
    → Shrinks 1 c.rd o
    → ((c' : Conn) → length c'.rd < length c.rd → Returns (k c') (λ e. Unit))
    → Returns (after_read h o c k) (λ e. Unit)
unfolding Shrinks
after_read-Ends h none c k s ends = tt
after_read-Ends h (some (args, rest)) c k s ends =
    after_dispatch-Ends (dispatch h args c.world) (record c { rd = rest }) k
      (λ c' e. ends c' (omega (arith, s, ap length e)))

-- The loop of a connection comes to an end, or to a command that waits or panics, whatever bytes the client sends and whatever the commands do: one round for
-- each of the bytes, and one more for the end of the input, are enough.
pub serve_peer-Returns :
    (n : ℕ) (hs : Hosts) (c : Conn) → length c.rd < n → Returns (serve_peer n hs c) (λ e. Unit)
unfolding serve_peer
serve_peer-Returns zero hs c lt = omega (arith, lt)
serve_peer-Returns (suc n) hs c lt =
    after_read-Ends (hs 0) (read_array c.rd) c (serve_peer n (later hs)) (read_array-Shrinks c.rd)
      (λ c' less. serve_peer-Returns n (later hs) c' (omega (arith, lt, less)))
