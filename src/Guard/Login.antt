-- ===== src/Guard/Login.antt =====
-- AUTH of cmd_connection.go, and `handleAuth` after it.
use rediqueue.Base.{
  ◌≡◌, ◌≢◌, refl, Bool, false, Bool-cases, inl, inr, String, [], ◌∷◌, ◌==◌, string_eq,
}
use rediqueue.Session.{World, get_ctx, handle_auth}
use rediqueue.Session.Run.{Host, Outcome, returned, waiting, panic}
use rediqueue.Handlers.Connection.{cmd_auth}

-- The handler has returned, the server's state is as before, and `handleAuth` lets the connection pass as the test says.
abbrev pub Passes : World → Outcome → Bool → Type 0
Passes w (returned broadcast w') b = ((handle_auth w').0 ≡ b) × (w'.queue ≡ w.queue)
Passes w (waiting cmd timeout w') b = ⊥
Passes w panic b = ⊥

needed : (w : World) → w.queue.password ≢ "" → (w.queue.password == "") ≡ false
needed w set = elim (Bool-cases (w.queue.password == "")) [
  | inl unset ↦ absurd (set ((string_eq.beq_iff w.queue.password "").0 unset))
  | inr other ↦ other
]

-- Where a password is set and the connection has not given it, AUTH of a text lets the connection pass `handleAuth`
-- afterwards exactly when the text is the password, and leaves RediQueue as it was.
pub cmd_auth-Passes :
    (h : Host) (cmd pw : String) (w : World)
    → w.queue.password ≢ ""
    → (get_ctx w).authenticated ≡ false
    → Passes w (cmd_auth h cmd (pw ∷ []) w) (w.queue.password == pw)
unfolding cmd_auth handle_auth
cmd_auth-Passes h cmd pw w set out = elim (Bool-cases (w.queue.password == pw)) [
  | inl right ↦ rw (needed w set, right, needed w set) (refl, refl)
  | inr wrong ↦ rw (needed w set, wrong, needed w set, out) (refl, refl)
]
