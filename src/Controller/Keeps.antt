-- ===== src/Controller/Keeps.antt =====
-- Invariants of the controller's methods, one rule for each step that a method is made of.
use clip_queue.Prelude.{◌≡◌, refl, Bool, true, false, Option, none, some, if◌then◌else◌}
use clip_queue.Controller.State.{
  Error, Result, ok, err, Event, Controller, Sys, Action, pure, fail, or_fail, guard, gets, modify,
  emit, ask, call, pause, ignore, on_error, finally, map_err, ◌>>=◌,
}

-- Whether `m` returns or fails, the controller that it leaves has `P` if the one it met had.
pub record Keeps {W A : Type 0} (P : Controller → Type 0) (m : Action W A) : Type 0 where
  pub at : (s : Sys W) → P s.controller → P (m s).1.controller

module _ {W : Type 0} {P : Controller → Type 0} where
  pub Keeps-gets : {A : Type 0} (f : Controller → A) → Keeps {W = W} P (gets f)
  unfolding gets
  Keeps-gets f = record { at = λ s h. h }

  pub Keeps-modify :
      (f : Controller → Controller)
      → ((c : Controller) → P c → P (f c))
      → Keeps {W = W} P (modify f)
  unfolding modify
  Keeps-modify f k = record { at = λ s h. k s.controller h }

  pub Keeps-emit : (e : Event) → Keeps {W = W} P (emit e)
  unfolding emit
  Keeps-emit e = record { at = λ s h. h }

  pub Keeps-pause : (f : W → W) → Keeps P (pause f)
  unfolding pause
  Keeps-pause f = record { at = λ s h. h }

  pub Keeps-guard : (b : Bool) (e : Error) → Keeps {W = W} P (guard b e)
  unfolding guard
  Keeps-guard true e = record { at = λ s h. h }
  Keeps-guard false e = record { at = λ s h. h }

module _ {W A : Type 0} {P : Controller → Type 0} where
  pub Keeps-pure : (a : A) → Keeps {W = W} P (pure a)
  unfolding pure
  Keeps-pure a = record { at = λ s h. h }

  pub Keeps-fail : (e : Error) → Keeps P (fail {W = W} {A = A} e)
  unfolding fail
  Keeps-fail e = record { at = λ s h. h }

  pub Keeps-or_fail : (o : Option A) (e : Error) → Keeps {W = W} P (or_fail o e)
  unfolding or_fail
  Keeps-or_fail none e = record { at = λ s h. h }
  Keeps-or_fail (some a) e = record { at = λ s h. h }

  pub Keeps-ask : (f : W → A × W) → Keeps P (ask f)
  unfolding ask
  Keeps-ask f = record { at = λ s h. h }

  pub Keeps-call : (f : W → Result A × W) → Keeps P (call f)
  unfolding call
  Keeps-call f = record { at = λ s h. h }

  pub Keeps-map_err : (f : Error → Error) (m : Action W A) → Keeps P m → Keeps P (map_err f m)
  unfolding map_err
  Keeps-map_err f m k = record { at = k.at }

  -- The branches may use how the test came out.
  pub Keeps-if :
      (test : Bool) (first other : Action W A)
      → (test ≡ true → Keeps P first)
      → (test ≡ false → Keeps P other)
      → Keeps P (if test then first else other)
  Keeps-if true first other kept _ = kept refl
  Keeps-if false first other _ kept = kept refl

  pub Keeps-finally :
      (m : Action W A) (d : Action W (Unit {0})) → Keeps P m → Keeps P d → Keeps P (finally m d)
  unfolding finally
  Keeps-finally m d km kd = record { at = λ s h. kd.at (m s).1 (km.at s h) }

  otherwise-keeps :
      (r : Result A) (d : Action W (Unit {0})) (s : Sys W)
      → Keeps P d
      → P s.controller
      → P (on_error (λ _. (r, s)) d s).1.controller
  unfolding on_error
  otherwise-keeps (ok a) d s kd h = h
  otherwise-keeps (err e) d s kd h = kd.at s h

  pub Keeps-on_error :
      (m : Action W A) (d : Action W (Unit {0})) → Keeps P m → Keeps P d → Keeps P (on_error m d)
  unfolding on_error
  Keeps-on_error m d km kd = record { at = λ s h. otherwise-keeps (m s).0 d (m s).1 kd (km.at s h) }

module _ {W : Type 0} {P : Controller → Type 0} where
  pub Keeps-ignore : (m : Action W (Unit {0})) → Keeps P m → Keeps P (ignore m)
  unfolding ignore
  Keeps-ignore m k = record { at = k.at }

module _ {W A B : Type 0} {P : Controller → Type 0} where
  bind-keeps :
      (r : Result A) (f : A → Action W B) (s : Sys W)
      → ((a : A) → Keeps P (f a))
      → P s.controller
      → P (((λ _. (r, s)) >>= f) s).1.controller
  unfolding ◌>>=◌
  bind-keeps (ok a) f s kf h = (kf a).at s h
  bind-keeps (err e) f s kf h = h

  pub Keeps-bind :
      (m : Action W A) (f : A → Action W B)
      → Keeps P m
      → ((a : A) → Keeps P (f a))
      → Keeps P (m >>= f)
  unfolding ◌>>=◌
  Keeps-bind m f km kf = record { at = λ s h. bind-keeps (m s).0 f (m s).1 kf (km.at s h) }

pub ruleset keeps_rules = (
  Keeps-gets, Keeps-modify, Keeps-emit, Keeps-pause, Keeps-guard, Keeps-pure, Keeps-fail,
  Keeps-or_fail, Keeps-ask, Keeps-call, Keeps-map_err, Keeps-if, Keeps-finally, Keeps-on_error,
  Keeps-ignore, Keeps-bind,
)
