-- ===== src/Server/Table.antt =====
-- A property of handlers under their names, from the registrations to the table that `dispatch` looks in.
use rediqueue.Base.{
  String, List, [], ◌∷◌, subst, Option, none, some, is_some, Bool-cases, inl, inr, ◌==◌, string_eq,
  All,
}
use rediqueue.Base.Text.{to_upper}
use rediqueue.Base.Dict.{lookup, insert, lookup-insert}
use rediqueue.Handlers.{Handler}
use rediqueue.Server.{Table, register, register_all}

module _ (T : String → Handler → Type 0) where
  abbrev pub Registered : String × Handler → Type 0
  Registered (name, f) = T (to_upper name) f

  abbrev pub Kept : String → Option Handler → Type 0
  Kept name none = Unit
  Kept name (some f) = T name f

  abbrev pub Holds : Table → Type 0
  Holds cmds = (name : String) → Kept name (lookup cmds name)

  insert-Holds :
      (cmds : Table) (k : String) (f : Handler) → Holds cmds → T k f → Holds (insert cmds k f)
  insert-Holds cmds k f all one name =
      rw (lookup-insert cmds k name f) (elim (Bool-cases (k == name)) [
        | inl same ↦ rw same (subst (λ n. T n f) ((string_eq.beq_iff k name).0 same) one)
        | inr other ↦ rw other (all name)
      ])

  register-Holds :
      (cmds : Table) (cmd : String) (f : Handler)
      → Holds cmds
      → T (to_upper cmd) f
      → Holds (register cmds cmd f)
  unfolding register
  register-Holds cmds cmd f all one = elim (Bool-cases (is_some (lookup cmds (to_upper cmd)))) [
    | inl known ↦ rw known all
    | inr new ↦ rw new (insert-Holds cmds (to_upper cmd) f all one)
  ]

  register_all-from :
      (cmds : Table) (fs : List (String × Handler))
      → Holds cmds
      → All Registered fs
      → Holds (register_all cmds fs)
  unfolding register_all
  register_all-from cmds [] all p = all
  register_all-from cmds ((cmd, f) ∷ fs) all (p, ps) =
      register_all-from (register cmds cmd f) fs (register-Holds cmds cmd f all p) ps

  pub register_all-Holds :
      (fs : List (String × Handler)) → All Registered fs → Holds (register_all [] fs)
  unfolding lookup
  register_all-Holds fs = register_all-from [] fs (λ name. tt)
