-- ===== src/Workers/Chain.antt =====
-- The chain of middlewares of `BaseWorker` (src/vumi2/workers.py).
use vumi.Prelude.{
  String, Bool, ◌≡◌, refl, ap, fun_ext, List, [], ◌∷◌, string_eq, Result, ◌>>=◌, if◌then◌else◌,
  Bool-cases, inl, inr,
}
use vumi.Workers.{MiddlewareConfig, Middleware, enabled, run, middleware_handler}

module _ {T R : Type 0} (flag : MiddlewareConfig → Bool) (connector_name : String) where
  -- What one middleware adds: its handler where it is enabled, else nothing.
  abbrev pub apply : Middleware T → (T → Result R) → T → Result R
  apply m handler msg =
      if enabled flag m.config connector_name
      then m.handle msg connector_name >>= handler
      else handler msg

  abbrev pub apply_all : List (Middleware T) → (T → Result R) → T → Result R
  apply_all [] handler = handler
  apply_all (m ∷ ms) handler = apply m (apply_all ms handler)

  -- The wrapped handler is the enabled middlewares one inside the other, the first one outermost.
  -- An exception of one leaves out the rest and the handler.
  pub middleware_handler-apply :
      (middlewares : List (Middleware T)) (handler : T → Result R) (msg : T)
      → middleware_handler flag connector_name middlewares handler msg
        ≡ apply_all middlewares handler msg
  unfolding middleware_handler run
  middleware_handler-apply [] handler msg = refl
  middleware_handler-apply (m ∷ ms) handler msg =
      elim (Bool-cases (enabled flag m.config connector_name)) [
        | inl on ↦
            rw (on, run)
              (ap (◌>>=◌ (m.handle msg connector_name))
                (fun_ext (λ msg'. middleware_handler-apply ms handler msg')))
        | inr off ↦ rw (off, run) (middleware_handler-apply ms handler msg)
      ]
