-- ===== src/Sound/Safe.antt =====
-- What keeps a request from the panics that are known, and what is to be shown of a handler under its name.
use rediqueue.Base.{
  ◌≡◌, ◌≢◌, String, true, List, [], ◌∷◌, Option, none, some, ◌==◌, string_eq, if◌then◌else◌,
}
use rediqueue.Base.Int.{ℤ, pos, negsuc}
use rediqueue.Base.Text.{atoi}
use rediqueue.Session.{World, srandmember}
use rediqueue.Session.Run.{Env, Host}
use rediqueue.Handlers.{Handler, ScanOptions, options, bad_options, scan_options}
use rediqueue.Sound.Keys.{Compiles, Matches}
use rediqueue.Sound.Callbacks.{Ordered, FitDb}
use rediqueue.Sound.Handlers.{Sane, Answered}
use rediqueue.Sound.Control as C

-- The commands that can panic in a sound state.
pub data Risk : Type 0 where
  no_risk on_keys on_rename on_scan on_sscan on_srandmember : Risk

abbrev pub risk_of : String → Risk
risk_of name =
    if name == "KEYS"
    then on_keys
    else if name == "RENAME"
    then on_rename
    else if name == "SCAN"
    then on_scan
    else if name == "SSCAN"
    then on_sscan
    else if name == "SRANDMEMBER"
    then on_srandmember
    else no_risk

abbrev pub SafeOptions : Env → ScanOptions → Type 0
SafeOptions e (options match) = Matches e.compile match
SafeOptions e (bad_options msg) = Unit

abbrev pub NotNegative : Option ℤ → Type 0
NotNegative none = Unit
NotNegative (some (pos n)) = Unit
NotNegative (some (negsuc n)) = ⊥

-- The pattern of KEYS, SCAN and SSCAN compiles, RENAME has two keys, and SRANDMEMBER a count that is not negative.
unfoldable pub Safe : Risk → Env → List String → Type 0
Safe on_keys e (pattern' ∷ []) = Compiles e.compile pattern'
Safe on_rename e (from ∷ to ∷ []) = from ≢ to
Safe on_scan e (cursor ∷ opts) = SafeOptions e (scan_options opts none)
Safe on_sscan e (key ∷ cursor ∷ opts) = SafeOptions e (scan_options opts none)
Safe on_srandmember e (key ∷ []) = ⊥
Safe on_srandmember e (key ∷ counts ∷ []) = NotNegative (atoi counts)
Safe _ e _ = Unit

-- What is shown of a handler under its name.
abbrev pub ServesAs : String → Handler → Type 0
ServesAs name f =
    (h : Host)
    → Ordered h.env
    → (cmd : String) (args : List String) (w : World) → Safe (risk_of name) h.env args
    → Sane h.env w
    → Answered h.env w (f h cmd args w)

pub always : (name : String) (f : Handler) → C.Serves f → ServesAs name f
always name f g h o cmd args w safe s = g h o cmd args w s

pub keys_fit :
    (e : Env) (args : List String)
    → Safe on_keys e args
    → (p : String) → args ≡ p ∷ []
    → Compiles e.compile p
unfolding Safe
keys_fit e args safe p q = rw q at safe

pub rename_fit :
    (e : Env) (args : List String)
    → Safe on_rename e args
    → (from to : String) → args ≡ from ∷ to ∷ []
    → from ≢ to
unfolding Safe
rename_fit e args safe from to q = rw q at safe

pub scan_fit :
    (e : Env) (args : List String)
    → Safe on_scan e args
    → (cursor : String) (opts : List String) (match : Option String) → args ≡ cursor ∷ opts
    → scan_options opts none ≡ options match
    → Matches e.compile match
unfolding Safe
scan_fit e args safe cursor opts match q r =
    let there : SafeOptions e (scan_options opts none) = rw q at safe in rw r at there

pub sscan_fit :
    (e : Env) (args : List String)
    → Safe on_sscan e args
    → (key cursor : String) (opts : List String) (match : Option String)
    → args ≡ key ∷ cursor ∷ opts
    → scan_options opts none ≡ options match
    → Matches e.compile match
unfolding Safe
sscan_fit e args safe key cursor opts match q r =
    let there : SafeOptions e (scan_options opts none) = rw q at safe in rw r at there

drawn_fit :
    (e : Env) (n : ℤ) (key : String) → NotNegative (some n) → FitDb e (srandmember key n true)
unfolding FitDb
drawn_fit e (pos n) key safe = tt
drawn_fit e (negsuc n) key safe = absurd safe

pub srandmember_fit :
    (e : Env) (args : List String)
    → Safe on_srandmember e args
    → (key s : String) (n : ℤ) → args ≡ key ∷ s ∷ []
    → atoi s ≡ some n
    → FitDb e (srandmember key n true)
unfolding Safe
srandmember_fit e args safe key s n q r =
    let there : NotNegative (atoi s) = rw q at safe in drawn_fit e n key (rw r at there)

pub no_draw :
    (e : Env) (args : List String)
    → Safe on_srandmember e args
    → (key : String) → args ≡ key ∷ []
    → ⊥
unfolding Safe
no_draw e args safe key q = rw q at safe
