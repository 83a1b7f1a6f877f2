-- ===== src/Tests/Systems.antt =====
-- A new server and its first requests.
use rediqueue.Base.{ℕ, refl, String, [], ◌∷◌, List, none, string_eq, differ}
use rediqueue.Base.Int.{pos}
use rediqueue.Base.Text.{to_upper}
use rediqueue.Base.Dict.{lookup}
use rediqueue.Reply.{array, bulk}
use rediqueue.Db.Keyspace.{Represents}
use rediqueue.Exec.Watch.{Admitted}
use rediqueue.Exec.Wakes.{Wakes, xpush-Wakes}
use rediqueue.Handlers.Lists.{cmd_xpush}
use rediqueue.Cmd.Lists.{left}
use rediqueue.Cmd.Sets.{Draws}
use rediqueue.Session.{bxpop, db_of, handle_auth}
use rediqueue.Session.Run.{Env}
use rediqueue.Server.{dispatch}
use rediqueue.Server.System.{
  System, seen, new_system, host_of, wake, expire, put_world, reading, joined, Reach, here, then,
  accepted,
}
use rediqueue.Sound.Handlers.{Answered}
use rediqueue.Sound.Safe.{Safe, risk_of}
use rediqueue.Sound.Dispatch.{dispatch-Answered}
use rediqueue.Sound.Reach.{SafeRequest, new_system-Steady, reach-Answered, reach_wake-Answered}

abbrev env : Env
env = record { compile = λ source. none; range = λ keys. keys }

abbrev zeros : ℕ → Draws
zeros i j = 0

abbrev started : System
started = new_system "secret"

abbrev connected : System
connected = put_world started 4 reading (joined started 4)

abbrev push : List String
push = "rpush" ∷ "l" ∷ "a" ∷ []

push-SafeRequest : SafeRequest env push
unfolding SafeRequest to_upper
push-SafeRequest = tt

rename-Safe : Safe (risk_of (to_upper "rename")) env ("a" ∷ "b" ∷ [])
unfolding Safe to_upper
rename-Safe = differ "a" "b" refl

way : Reach env (SafeRequest env) started connected
way = then started started connected (here started) (accepted started 4)

dispatch-Answered_example :
    Answered env
      (seen started 0)
      (dispatch (host_of env zeros) ("rename" ∷ "a" ∷ "b" ∷ []) (seen started 0))
dispatch-Answered_example =
    dispatch-Answered (host_of env zeros) "rename" ("a" ∷ "b" ∷ []) (seen started 0) (λ l. refl)
      rename-Safe (new_system-Steady env "secret" 0)

reach-Answered_example :
    Answered env (seen connected 4) (dispatch (host_of env zeros) push (seen connected 4))
reach-Answered_example =
    reach-Answered env "secret" connected 4 zeros push (λ l. refl) way push-SafeRequest

reach_wake-Answered_example :
    Answered env (seen connected 4) (wake (bxpop left ("l" ∷ [])) (pos 0) (seen connected 4))
    × Answered env (seen connected 4) (expire (seen connected 4))
reach_wake-Answered_example =
    reach_wake-Answered env "secret" connected 4 (bxpop left ("l" ∷ [])) (pos 0) (λ l. refl) way

-- A new server without a password.
abbrev open_system : System
open_system = new_system ""

empty_view : Represents (db_of (seen open_system 1).queue (pos 0)) (λ k. none)
unfolding new_system db_of lookup
empty_view = record { tags = λ k. refl; lists = λ k. refl; sets = λ k. refl }

open_Admitted : Admitted (seen open_system 1)
unfolding new_system handle_auth
open_Admitted = refl

-- One connection waits in BLPOP m l, and another one pushes to the list "l".
xpush-Wakes_example :
    Wakes
      (joined open_system 2).peer
      left
      ("m" ∷ "l" ∷ [])
      (pos 0)
      (array (pos 2) ∷ bulk "l" ∷ bulk "b" ∷ [])
      (cmd_xpush left (host_of env zeros) "LPUSH" ("l" ∷ "a" ∷ "b" ∷ []) (seen open_system 1))
unfolding new_system
xpush-Wakes_example =
    xpush-Wakes left left "l" "a" ("b" ∷ []) ("m" ∷ []) [] (joined open_system 2).peer (pos 0)
      (seen open_system 1) (λ k. none) empty_view (λ k e. cc) refl ((refl, differ "l" "m" refl), tt)
      refl (host_of env zeros) "LPUSH" open_Admitted refl
