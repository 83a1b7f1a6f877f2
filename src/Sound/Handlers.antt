-- ===== src/Sound/Handlers.antt =====
-- What a request does to a server in a sound state, as a case of the rules of the handlers.
use rediqueue.Base.{
  ◌≡◌, refl, sym, ap, ◌∙◌, String, Bool, true, false, [], ◌∷◌, ◌++◌, Option, none, some, get_or,
  Returns, All, All-append, subst, Bool-cases, inl, inr, ◌==◌, string_eq,
}
use rediqueue.Base.Int.{ℤ}
use rediqueue.Reply.{Frame, error, inline}
use rediqueue.Cmd.Framing.{IsReply, owed}
use mathlib.Core.List.{append-nil}
use rediqueue.Session.{
  World, ConnCtx, BlockCmd, TxCmd, attempt, get_ctx, put_ctx, write, set_dirty, handle_auth, in_tx,
}
use rediqueue.Session.Run.{
  try_block, Env, Host, Outcome, returned, waiting, panic, or_panic, after_try, with_tx, blocking,
  enqueue,
}
use rediqueue.Handlers.{refuse, authed}
use rediqueue.Handlers.Rules.{Rules}
use rediqueue.Sound.Callbacks.{Ordered}
use rediqueue.Sound.Run.{Healthy, Wrote, Ran, Fit, Attempted, run_cb-Ran, try_block-Attempted}

-- Every database is valid, and the callbacks that the connection has queued are fit.
unfoldable pub Sane : Env → World → Type 0
unfolding Healthy Fit
Sane e w = Healthy w.queue × All (Fit e) (get_or (get_ctx w).transaction [])

-- The handler has returned and has written exactly one reply, or it waits and has written nothing; it has not panicked, and
-- the state is sound again.
abbrev pub Answered : Env → World → Outcome → Type 0
Answered e w (returned broadcast w') = Sane e w' × Wrote w w'
Answered e w (waiting cmd timeout w') = Sane e w' × (w'.peer.out ≡ w.peer.out)
Answered e w panic = ⊥

-- One more frame on a connection whose transaction is fit.
pub said :
    (e : Env) (broadcast : Bool) (f : Frame) (w w' : World)
    → IsReply (f ∷ [])
    → Sane e w'
    → w'.peer.out ≡ w.peer.out
    → Answered e w (returned broadcast (write (f ∷ []) w'))
unfolding Sane Wrote
said e broadcast f w w' one s same = (s, (f ∷ [], ap (λ out. out ++ f ∷ []) same, one))

-- The state is as sound as one with the same databases and the same transaction.
pub Sane-same :
    (e : Env) (w w' : World)
    → w'.queue ≡ w.queue
    → (get_ctx w').transaction ≡ (get_ctx w).transaction
    → Sane e w
    → Sane e w'
unfolding Sane
Sane-same e w w' q t (h, fits) =
    (subst Healthy (sym q) h, subst (λ cbs. All (Fit e) (get_or cbs [])) (sym t) fits)

set_dirty-same :
    (w : World) (o : Option ConnCtx)
    → w.peer.ctx ≡ o
    → ((set_dirty w).queue ≡ w.queue)
      × ((get_ctx (set_dirty w)).transaction ≡ (get_ctx w).transaction)
      × ((set_dirty w).peer.out ≡ w.peer.out)
unfolding set_dirty
set_dirty-same w none c = rw c (refl, refl, refl)
set_dirty-same w (some ctx) c = rw c (refl, refl, refl)

pub refused : (e : Env) (msg : String) (w : World) → Sane e w → Answered e w (refuse msg w)
unfolding refuse owed
refused e msg w s =
    let d = set_dirty-same w w.peer.ctx refl in
    said e false (error msg) w (set_dirty w) refl (Sane-same e w (set_dirty w) d.0 d.1 s) d.2

-- What is written on a connection in one state is written on it in another that has written as much.
pub Answered-from :
    (e : Env) (w w' : World) (o : Outcome)
    → w'.peer.out ≡ w.peer.out
    → Answered e w' o
    → Answered e w o
unfolding Wrote
Answered-from e w w' (returned broadcast v) same (s, (fs, out, one)) =
    (s, (fs, out ∙ ap (λ gs. gs ++ fs) same, one))
Answered-from e w w' (waiting cmd timeout v) same (s, out) = (s, out ∙ same)
Answered-from e w w' panic same a = absurd a

module _ (e : Env) (k : World → Outcome) (sound : (w : World) → Sane e w → Answered e w (k w)) where
  -- The context is made at its first use.
  fresh : (w : World) → Sane e w → Answered e w (k (put_ctx w (get_ctx w)))
  unfolding Sane Wrote
  fresh w s =
      Answered-from e w (put_ctx w (get_ctx w)) (k (put_ctx w (get_ctx w))) refl
        (sound (put_ctx w (get_ctx w)) s)

  closed_out :
      (w : World)
      → Sane e w
      → Answered e w (
          returned false
            (write (error "NOAUTH Authentication required." ∷ []) (put_ctx w (get_ctx w))))
  unfolding owed Sane
  closed_out w s = said e false _ w (put_ctx w (get_ctx w)) refl s refl

  authed_by :
      (w : World) (a b : Bool)
      → (w.queue.password == "") ≡ a
      → (get_ctx w).authenticated ≡ b
      → Sane e w
      → Answered e w (authed w k)
  unfolding authed handle_auth owed
  authed_by w true b ha hb s = rw ha (sound w s)
  authed_by w false true ha hb s = rw (ha, hb) (fresh w s)
  authed_by w false false ha hb s = rw (ha, hb) (closed_out w s)

  pub authed-Answered : (w : World) → Sane e w → Answered e w (authed w k)
  authed-Answered w = authed_by w _ _ refl refl

enqueued :
    (e : Env) (cb : TxCmd) (w : World)
    → Fit e cb
    → Sane e w
    → Answered e w (returned false (enqueue cb w))
unfolding Sane Wrote owed
enqueued e cb w fit (h, fits) = (
  (h, All-append (Fit e) (get_or (get_ctx w).transaction []) (cb ∷ []) fits (fit, tt)),
  (inline "QUEUED" ∷ [], refl, refl),
)

ran :
    (e : Env) (w : World) (o : Option World)
    → Sane e w
    → Returns o (Ran (put_ctx w (get_ctx w)))
    → Answered e w (or_panic true o)
unfolding Ran Sane Wrote
ran e w none s r = absurd r
ran e w (some w') (h, fits) (h', same, wrote) =
    ((h', subst (λ cbs. All (Fit e) (get_or cbs [])) (sym same) fits), wrote)

pub with_tx-Answered :
    (h : Host) (cb : TxCmd)
    → Ordered h.env
    → Fit h.env cb
    → (w : World) → Sane h.env w
    → Answered h.env w (with_tx h cb w)
unfolding with_tx Sane Wrote
with_tx-Answered h cb o fit w s = elim (Bool-cases (in_tx (get_ctx w))) [
  | inl busy ↦ rw busy (enqueued h.env cb w fit s)
  | inr idle ↦
      rw idle (ran h.env w _ s (run_cb-Ran h.env (h.draws 0) cb (put_ctx w (get_ctx w)) o fit s.0))
]

pub tried :
    (e : Env) (timeout : ℤ) (cmd : BlockCmd) (w : World) (o : Option (World × Bool))
    → Sane e w
    → Returns o (Attempted w)
    → Answered e w (after_try cmd timeout o)
unfolding Attempted Sane Wrote
tried e timeout cmd w none s r = absurd r
tried e timeout cmd w (some (w', true)) (h, fits) (h', same, wrote) =
    ((h', subst (λ cbs. All (Fit e) (get_or cbs [])) (sym same) fits), wrote)
tried e timeout cmd w (some (w', false)) (h, fits) (h', same, (fs, out, none')) = (
  (h', subst (λ cbs. All (Fit e) (get_or cbs [])) (sym same) fits),
  out ∙ ap (λ gs. w.peer.out ++ gs) none' ∙ append-nil w.peer.out,
)

pub blocking-Answered :
    (e : Env) (timeout : ℤ) (cmd : BlockCmd) (w : World)
    → Sane e w
    → Answered e w (blocking timeout cmd w)
unfolding blocking Sane Fit Wrote
blocking-Answered e timeout cmd w s = elim (Bool-cases (in_tx (get_ctx w))) [
  | inl busy ↦ rw busy (enqueued e (attempt cmd) w tt s)
  | inr idle ↦
      let made = put_ctx w (get_ctx w) in
      rw idle (
        Answered-from e w made (after_try cmd timeout (try_block cmd made)) refl
          (tried e timeout cmd made _ s (try_block-Attempted cmd made s.0)))
]

-- The rules of the handlers, for a host whose maps are gone through whole.
abbrev pub sound_rules : (h : Host) → Ordered h.env → Rules h
sound_rules h o = record {
  Out = λ w out. Sane h.env w → Answered h.env w out;
  In = λ w out. Sane h.env w → Answered h.env w out;
  Fit = Fit h.env;
  refused_out = refused h.env;
  refused_in = refused h.env;
  authed_out = authed-Answered h.env;
  tx_in = λ cb fit. with_tx-Answered h cb o fit;
  block_in = blocking-Answered h.env;
}
