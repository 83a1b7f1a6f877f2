-- ===== src/Sound/Reach.antt =====
-- Every state that a server reaches, with any number of connections, is sound.
use mathlib.Core.Option.{some-injective}
use rediqueue.Base.{
  ℕ, ◌≡◌, refl, String, true, List, [], ◌∷◌, some, Bool-cases, inl, inr, nat_beq, subst,
}
use rediqueue.Base.Int.{ℤ}
use rediqueue.Base.Text.{to_upper}
use rediqueue.Base.Dict.{lookup}
use rediqueue.Reply.{null}
use rediqueue.Cmd.Framing.{owed}
use rediqueue.Cmd.Sets.{Draws}
use rediqueue.Session.{World, BlockCmd}
use rediqueue.Session.Run.{Env, Outcome, returned, waiting, panic}
use rediqueue.Server.{dispatch}
use rediqueue.Server.System.{
  System, Activity, reading, blocked_in, seen, put_world, settle, wake, expire, new_system, host_of,
  delivered, joined, Step, requested, woken, expired, flushed, accepted, Reach, here, then,
}
use rediqueue.Sound.Callbacks.{Ordered}
use rediqueue.Sound.Run.{Healthy, try_block-Attempted, new-Valid}
use rediqueue.Sound.Handlers.{Sane, Answered, said, tried}
use rediqueue.Sound.Safe.{Safe, risk_of}
use rediqueue.Sound.Dispatch.{dispatch-Answered}

-- A request with a name, and without the known risks.
unfoldable pub SafeRequest : Env → List String → Type 0
unfolding Safe
SafeRequest e [] = ⊥
SafeRequest e (name ∷ args) = Safe (risk_of (to_upper name)) e args

-- Sound for each connection.
abbrev pub Steady : Env → System → Type 0
Steady e s = (i : ℕ) → Sane e (seen s i)

put_world-Steady :
    (e : Env) (s : System) (i : ℕ) (a : Activity) (w : World)
    → Sane e w
    → Steady e s
    → Steady e (put_world s i a w)
unfolding Sane
put_world-Steady e s i a w sane all j = elim (Bool-cases (nat_beq i j)) [
  | inl same ↦ rw same sane
  | inr other ↦ rw other (sane.0, (all j).1)
]

settle-Steady :
    (e : Env) (s s' : System) (i : ℕ) (o : Outcome)
    → Answered e (seen s i) o
    → settle s i o ≡ some s'
    → Steady e s
    → Steady e s'
unfolding settle
settle-Steady e s s' i (returned broadcast w) a q all =
    subst (Steady e) (some-injective _ _ q) (put_world-Steady e s i reading w a.0 all)
settle-Steady e s s' i (waiting cmd timeout w) a q all =
    subst (Steady e) (some-injective _ _ q)
      (put_world-Steady e s i (blocked_in cmd timeout) w a.0 all)
settle-Steady e s s' i panic a q all = absurd a

request-Answered :
    (e : Env) (s : System) (i : ℕ) (draws : ℕ → Draws) (args : List String)
    → Ordered e
    → SafeRequest e args
    → Steady e s
    → Answered e (seen s i) (dispatch (host_of e draws) args (seen s i))
unfolding SafeRequest
request-Answered e s i draws [] o safe all = absurd safe
request-Answered e s i draws (name ∷ args) o safe all =
    dispatch-Answered (host_of e draws) name args (seen s i) o safe (all i)

wake-Answered :
    (e : Env) (cmd : BlockCmd) (timeout : ℤ) (w : World)
    → Sane e w
    → Answered e w (wake cmd timeout w)
unfolding wake Sane
wake-Answered e cmd timeout w s = tried e timeout cmd w _ s (try_block-Attempted cmd w s.0)

expire-Answered : (e : Env) (w : World) → Sane e w → Answered e w (expire w)
unfolding expire owed
expire-Answered e w s = said e true null w w refl s refl

step-Steady :
    (e : Env) (s s' : System) → Ordered e → Step e (SafeRequest e) s s' → Steady e s → Steady e s'
unfolding Sane
step-Steady e _ _ o (requested s s' i draws args idle safe q) all =
    settle-Steady e s s' i _ (request-Answered e s i draws args o safe all) q all
step-Steady e _ _ o (woken s s' i cmd timeout busy q) all =
    settle-Steady e s s' i _ (wake-Answered e cmd timeout (seen s i) (all i)) q all
step-Steady e _ _ o (expired s s' i cmd timeout busy set q) all =
    settle-Steady e s s' i _ (expire-Answered e (seen s i) (all i)) q all
step-Steady e _ _ o (flushed s i) all =
    put_world-Steady e s i (s.clients i).activity (delivered s i) (all i) all
step-Steady e _ _ o (accepted s i) all =
    put_world-Steady e s i reading (joined s i) ((all i).0, tt) all

Reach-Steady :
    (e : Env) (s s' : System) → Ordered e → Reach e (SafeRequest e) s s' → Steady e s → Steady e s'
Reach-Steady e _ _ o (here s) all = all
Reach-Steady e _ _ o (then s t s' before step) all =
    step-Steady e t s' o step (Reach-Steady e s t o before all)

pub new_system-Steady : (e : Env) (password : String) → Steady e (new_system password)
unfolding new_system Sane Healthy lookup
new_system-Steady e password i = (new-Valid, tt)

-- A new server has come through any number of steps of any number of connections: requests, wake-ups and timeouts of
-- commands that wait, replies sent and connections made, in any order, where each request has a name and is safe. Then
-- the next safe request of any connection does not panic: it is answered with exactly one reply, or waits and writes
-- nothing, and leaves every database valid.
pub reach-Answered :
    (e : Env) (password : String) (s : System) (i : ℕ) (draws : ℕ → Draws) (args : List String)
    → Ordered e
    → Reach e (SafeRequest e) (new_system password) s
    → SafeRequest e args
    → Answered e (seen s i) (dispatch (host_of e draws) args (seen s i))
reach-Answered e password s i draws args o way safe =
    request-Answered e s i draws args o safe
      (Reach-Steady e (new_system password) s o way (new_system-Steady e password))

-- In a state that a new server reaches so, a command that waits does not panic when it is woken: it is done with exactly
-- one reply, or waits on and writes nothing; and a timeout writes exactly one reply. Every database stays valid.
pub reach_wake-Answered :
    (e : Env) (password : String) (s : System) (i : ℕ) (cmd : BlockCmd) (timeout : ℤ)
    → Ordered e
    → Reach e (SafeRequest e) (new_system password) s
    → Answered e (seen s i) (wake cmd timeout (seen s i))
      × Answered e (seen s i) (expire (seen s i))
reach_wake-Answered e password s i cmd timeout o way =
    let all = Reach-Steady e (new_system password) s o way (new_system-Steady e password) in
    (wake-Answered e cmd timeout (seen s i) (all i), expire-Answered e (seen s i) (all i))
