-- ===== src/Deploy/Effect.antt =====
-- Python statements over the database: a result, an exception, or a killed process, with the hub
-- that each leaves. What was written before a raise stays written.
use deploy_hub.Prelude.{Bool, if◌then◌else◌}
use deploy_hub.Deploy.State.{Hub}

-- DeploySeamRefused, Model.DoesNotExist, and any other exception.
pub data Error : Type 0 where
  seam_refused not_found failure : Error

pub data Result (A : Type 0) : Type 0 where
  ok : A → Result A
  raised : Error → Result A
  killed : Result A

abbrev pub Effect : Type 0 → Type 0 → Type 0
Effect W A = Hub W → Result A × Hub W

abbrev pub after : {A : Type 0} → Result A → Result (Unit {0}) → Result A
after r (ok _) = r
after r (raised e) = raised e
after r killed = killed

module _ {W A : Type 0} where
  unfoldable pub return : A → Effect W A
  return a hub = (ok a, hub)

  unfoldable pub raise : Error → Effect W A
  raise e hub = (raised e, hub)

  abbrev pub handle : (Error → Bool) → (Hub W → Hub W) → Result A → Hub W → Result A × Hub W
  handle caught handler (ok a) hub = (ok a, hub)
  handle caught handler (raised e) hub = (raised e, if caught e then handler hub else hub)
  handle caught handler killed hub = (killed, hub)

  -- `try: m; except caught: handler; raise`
  unfoldable pub on_raise : (Error → Bool) → (Hub W → Hub W) → Effect W A → Effect W A
  on_raise caught handler m hub = let (r, hub') = m hub in handle caught handler r hub'

  abbrev pub close : Effect W (Unit {0}) → Result A → Hub W → Result A × Hub W
  close cleanup (ok a) hub = let (r, hub') = cleanup hub in (after (ok a) r, hub')
  close cleanup (raised e) hub = let (r, hub') = cleanup hub in (after (raised e) r, hub')
  close cleanup killed hub = (killed, hub)

  -- `try: m; finally: cleanup`. A killed process cleans nothing up.
  unfoldable pub with_finally : Effect W (Unit {0}) → Effect W A → Effect W A
  with_finally cleanup m hub = let (r, hub') = m hub in close cleanup r hub'

module _ {W : Type 0} where
  unfoldable pub modify : (Hub W → Hub W) → Effect W (Unit {0})
  modify f hub = (ok tt, f hub)

module _ {W A B : Type 0} where
  infixl 5 ◌>>=◌ ◌>>◌
  abbrev pub continue : Result A → (A → Effect W B) → Effect W B
  continue (ok a) f hub = f a hub
  continue (raised e) f hub = (raised e, hub)
  continue killed f hub = (killed, hub)

  -- Opening this opens the other actions too.
  unfoldable pub ◌>>=◌ : Effect W A → (A → Effect W B) → Effect W B
  unfolding return raise on_raise with_finally modify
  ◌>>=◌ m f hub = let (r, hub') = m hub in continue r f hub'

  abbrev pub ◌>>◌ : Effect W A → Effect W B → Effect W B
  m >> k = m >>= λ _. k
