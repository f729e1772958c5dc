-- ===== src/Action/Frame.antt =====
-- Actions that leave a part of the state.
use igrill_remote_server.Prelude.{◌≡◌, refl}
use igrill_remote_server.Action.{Action, Result, ok, err, ◌>>=◌}

module _ {ℓ κ} {S : Type ℓ} {X : Type κ} (view : S → X) where
  -- After the result `r` in the state `x`.
  pub bind-frame :
      {A B : Type ℓ} (r : Result A) (x : S) (f : A → Action S B)
      → ((a : A) (y : S) → view (f a y).1 ≡ view y)
      → view (((λ _. (r, x)) >>= f) x).1 ≡ view x
  bind-frame (ok a) x f h = h a x
  bind-frame (err e) x f h = refl
