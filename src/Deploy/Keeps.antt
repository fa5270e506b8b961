-- ===== src/Deploy/Keeps.antt =====
-- Invariants of effects, with one rule for each way to build one.
use mathlib.Core.Path.{subst}
use deploy_hub.Prelude.{Bool, true, false, ◌≡◌, refl, if◌then◌else◌}
use deploy_hub.Deploy.State.{Hub}
use deploy_hub.Deploy.Effect.{
  Error, Result, ok, raised, killed, Effect, ◌>>=◌, continue, return, on_raise, handle, modify,
}

module _ {W : Type 0} (P : Hub W → Type 0) where
  -- `m` keeps `P`, whether it returns, raises or is killed.
  pub record Keeps {A : Type 0} (m : Effect W A) : Type 0 where
    pub at : (hub : Hub W) → P hub → P (m hub).1

module _ {W A : Type 0} {P : Hub W → Type 0} where
  pub Keeps-return : (a : A) → Keeps P (return a)
  unfolding return
  Keeps-return a = record { at = λ hub h. h }

  pub Keeps-if :
      (b : Bool) (m n : Effect W A) → Keeps P m → Keeps P n → Keeps P (if b then m else n)
  Keeps-if true m n km kn = km
  Keeps-if false m n km kn = kn

  handle_keeps :
      (caught : Error → Bool) (f : Hub W → Hub W) (r : Result A) (hub : Hub W)
      → ((hub : Hub W) → P hub → P (f hub))
      → P hub
      → P (handle caught f r hub).1
  handle_keeps caught f (ok a) hub kf h = h
  handle_keeps caught f (raised e) hub kf h = pick (caught e)
    where
      pick : (b : Bool) → P (if b then f hub else hub)
      pick true = kf hub h
      pick false = h
  handle_keeps caught f killed hub kf h = h

  pub Keeps-on_raise :
      (caught : Error → Bool) (f : Hub W → Hub W) (m : Effect W A)
      → ((hub : Hub W) → P hub → P (f hub))
      → Keeps P m
      → Keeps P (on_raise caught f m)
  unfolding on_raise
  Keeps-on_raise caught f m kf km = record {
    at = λ hub h. handle_keeps caught f (m hub).0 (m hub).1 kf (km.at hub h);
  }

module _ {W A B : Type 0} {P : Hub W → Type 0} where
  continue_keeps :
      (r : Result A) (f : A → Effect W B) (hub : Hub W)
      → ((a : A) → Keeps P (f a))
      → P hub
      → P (continue r f hub).1
  continue_keeps (ok a) f hub kf h = (kf a).at hub h
  continue_keeps (raised e) f hub kf h = h
  continue_keeps killed f hub kf h = h

  pub Keeps-bind :
      (m : Effect W A) (f : A → Effect W B)
      → Keeps P m
      → ((a : A) → Keeps P (f a))
      → Keeps P (m >>= f)
  unfolding ◌>>=◌
  Keeps-bind m f km kf = record {
    at = λ hub h. continue_keeps (m hub).0 f (m hub).1 kf (km.at hub h);
  }

pub Keeps-modify :
    {W : Type 0} {P : Hub W → Type 0} (f : Hub W → Hub W)
    → ((hub : Hub W) → P hub → P (f hub))
    → Keeps P (modify f)
unfolding modify
Keeps-modify f kf = record { at = kf }

-- Of a run of `m` from `P` that returns, `Q` holds. A raise or a kill promises nothing.
module _ {W A : Type 0} (P : Hub W → Type 0) (m : Effect W A) (Q : A → Hub W → Type 0) where
  pub record Leads : Type 0 where
    pub at : (hub : Hub W) (a : A) → P hub → (m hub).0 ≡ ok a → Q a (m hub).1

module _ {W A B : Type 0} where
  continue_leads :
      {Q : A → Hub W → Type 0} (R : B → Hub W → Type 0) (r : Result A) (f : A → Effect W B)
      (hub : Hub W) (b : B)
      → ((a : A) → r ≡ ok a → Q a hub)
      → ((a : A) → Leads (Q a) (f a) R)
      → (continue r f hub).0 ≡ ok b
      → R b (continue r f hub).1
  continue_leads R (ok a) f hub b q lf e = (lf a).at hub b (q a refl) e
  continue_leads R (raised x) f hub b q lf e = absurd (cc)
  continue_leads R killed f hub b q lf e = absurd (cc)

  pub Leads-bind :
      {P : Hub W → Type 0} (Q : A → Hub W → Type 0) (R : B → Hub W → Type 0) (m : Effect W A)
      (f : A → Effect W B)
      → Leads P m Q
      → ((a : A) → Leads (Q a) (f a) R)
      → Leads P (m >>= f) R
  unfolding ◌>>=◌
  Leads-bind Q R m f lm lf = record {
    at = λ hub b p e.
        continue_leads {Q = Q} R (m hub).0 f (m hub).1 b (λ a ea. lm.at hub a p ea) lf e;
  }

module _ {W A : Type 0} (Q : A → Hub W → Type 0) where
  handle_leads :
      (caught : Error → Bool) (f : Hub W → Hub W) (r : Result A) (hub : Hub W) (a : A)
      → (r ≡ ok a → Q a hub)
      → (handle caught f r hub).0 ≡ ok a
      → Q a (handle caught f r hub).1
  handle_leads caught f (ok b) hub a q e = q e
  handle_leads caught f (raised x) hub a q e = absurd (cc)
  handle_leads caught f killed hub a q e = absurd (cc)

  pub Leads-on_raise :
      {P : Hub W → Type 0} (caught : Error → Bool) (f : Hub W → Hub W) (m : Effect W A)
      → Leads P m Q
      → Leads P (on_raise caught f m) Q
  unfolding on_raise
  Leads-on_raise caught f m lm = record {
    at = λ hub a p e. handle_leads caught f (m hub).0 (m hub).1 a (lm.at hub a p) e;
  }

  pub Leads-if :
      {P : Hub W → Type 0} (b : Bool) (m n : Effect W A)
      → (b ≡ true → Leads P m Q)
      → (b ≡ false → Leads P n Q)
      → Leads P (if b then m else n) Q
  Leads-if true m n lm ln = lm refl
  Leads-if false m n lm ln = ln refl

module _ {W A : Type 0} {P : Hub W → Type 0} where
  pub Leads-return :
      (Q : A → Hub W → Type 0) (a : A) → ((hub : Hub W) → P hub → Q a hub) → Leads P (return a) Q
  unfolding return
  Leads-return Q a h = record {
    at = λ hub b p e. subst (λ x. Q x hub) (let same : a ≡ b = cc in same) (h hub p);
  }

pub Leads-modify :
    {W : Type 0} {P : Hub W → Type 0} (Q : Hub W → Type 0) (f : Hub W → Hub W)
    → ((hub : Hub W) → P hub → Q (f hub))
    → Leads P (modify f) (λ _. Q)
unfolding modify
Leads-modify Q f h = record { at = λ hub a p e. h hub p }
