-- ===== src/Server/Wire.antt =====
-- The Write methods of type Peer in server/server.go: the bytes of what is written.
use Prim.Native.Char.{Char}
use rediqueue.Base.{String, List, [], ◌∷◌, ◌++◌, length}
use rediqueue.Base.Int.{pos}
use rediqueue.Base.Decimal.{print_int}
use rediqueue.Reply.{Frame, error, inline, bulk, null, array, int}
use rediqueue.Server.Proto.{Bytes}

abbrev pub bytes : String → Bytes
bytes String.[] = []
bytes (String.◌∷◌ c s) = c ∷ bytes s

-- "\r\n"
abbrev pub crlf : Bytes
crlf = bytes "\r\n"

-- A mark, a text and the end of a line.
abbrev pub line_of : Char → String → Bytes
line_of mark s = mark ∷ (bytes s ++ crlf)

unfoldable pub wire : Frame → Bytes
wire (error e) = line_of "-" e
wire (inline s) = line_of "+" s
wire (bulk s) = line_of "$" (print_int (pos (length (bytes s)))) ++ (bytes s ++ crlf)
wire null = line_of "$" "-1"
wire (array n) = line_of "*" (print_int n)
wire (int i) = line_of ":" (print_int i)

unfoldable pub wire_all : List Frame → Bytes
unfolding wire
wire_all [] = []
wire_all (f ∷ fs) = wire f ++ wire_all fs
