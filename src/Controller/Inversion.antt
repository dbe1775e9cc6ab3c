-- ===== src/Controller/Inversion.antt =====
-- What a method that returns without an error leaves behind, from its last step.
use clip_queue.Prelude.{◌≡◌}
use clip_queue.Controller.State.{Result, ok, err, Controller, Sys, Action, ◌>>=◌}
use clip_queue.Controller.Keeps.{Keeps}

-- Started on a controller with `P`, `m` can only return into a state with `Q`.
pub record Leaves {W A : Type 0} (P : Controller → Type 0) (Q : Sys W → Type 0) (m : Action W A)
    : Type 0 where
  pub at : (s s' : Sys W) (a : A) → P s.controller → m s ≡ (ok a, s') → Q s'

module _ {W A B : Type 0} {P : Controller → Type 0} {Q : Sys W → Type 0} where
  behind :
      (r : Result A) (f : A → Action W B) (s s' : Sys W) (b : B)
      → ((a : A) → Leaves P Q (f a))
      → P s.controller
      → ((λ _. (r, s)) >>= f) s ≡ (ok b, s')
      → Q s'
  unfolding ◌>>=◌
  behind (ok a) f s s' b kf v h = (kf a).at s s' b v h
  behind (err e) f s s' b kf v h = cc

  pub Leaves-bind :
      (m : Action W A) (f : A → Action W B)
      → Keeps P m
      → ((a : A) → Leaves P Q (f a))
      → Leaves P Q (m >>= f)
  unfolding ◌>>=◌
  Leaves-bind m f km kf = record {
    at = λ s s' b v h. behind (m s).0 f (m s).1 s' b kf (km.at s v) h;
  }
