-- ===== src/Lifecycle/Calls/Outcomes/Passing.antt =====
-- The loop of BeginStart and MarkStarted of lifecycle/lifecycle.go over the startup hooks.
use gonex.Common.{
  suc, ◌≡◌, refl, ◌⊎◌, inl, inr, Option, none, some, List, [], ◌∷◌, ◌++◌, arith, ap, subst,
  Option-cases,
}
use gonex.Lifecycle.{Err, Hook}
use gonex.Lifecycle.Calls.{World, Env, poll, run_until_error}

-- The world after one look at the context.
abbrev pub looked : World → World
looked w = record w { clock = suc w.clock }

-- Every hook was called, in order, and returned nil, with the context alive behind it.
pub data Passes (env : Env) : List Hook → World → World → Type 0 where
  nothing : {w : World} → Passes env [] w w
  passed :
      {h : Hook} {hs : List Hook} {w v : World}
      → (env.hook h w).0 ≡ none
      → env.ctx_err (env.hook h w).1.clock ≡ none
      → Passes env hs (looked (env.hook h w).1) v
      → Passes env (h ∷ hs) w v

-- The loop over the hooks was left for the error `x`: a hook returned it, or the context had it behind a
-- hook that returned nil. The hooks before it passed.
abbrev pub IsLeft : Env → List Hook → World → Err → World → Type 0
IsLeft env hs w x u =
    (before : List Hook) × (h : Hook) × (after : List Hook) × (v : World) × (hs
      ≡ before ++ h ∷ after)
    × Passes env before w v
    × ((env.hook h v ≡ (some x, u))
        ⊎ (((env.hook h v).0 ≡ none)
            × (env.ctx_err (env.hook h v).1.clock ≡ some x)
            × (u ≡ looked (env.hook h v).1)))

pub run_until_error-Passes :
    (env : Env) (hs : List Hook) (w v : World)
    → run_until_error env hs w ≡ (none, v)
    → Passes env hs w v
unfolding run_until_error poll
run_until_error-Passes env [] w v e =
    subst (Passes env [] w) (ap (λ (r : Option Err × World). r.1) e) nothing
run_until_error-Passes env (h ∷ hs) w v e = elim (Option-cases (env.hook h w).0) [
  | inr (y, failed) ↦ absurd (ground arith)
  | inl fine ↦ elim (Option-cases (env.ctx_err (env.hook h w).1.clock)) [
    | inr (y, dead) ↦ absurd (ground arith)
    | inl alive ↦
        passed fine alive (run_until_error-Passes env hs (looked (env.hook h w).1) v (ground arith))
  ]
]

pub run_until_error-IsLeft :
    (env : Env) (hs : List Hook) (w u : World) (x : Err)
    → run_until_error env hs w ≡ (some x, u)
    → IsLeft env hs w x u
unfolding run_until_error poll
run_until_error-IsLeft env [] w u x e = absurd (ground arith)
run_until_error-IsLeft env (h ∷ hs) w u x e = elim (Option-cases (env.hook h w).0) [
  | inr (y, failed) ↦ ([], h, hs, w, refl, nothing, inl (ground arith))
  | inl fine ↦ elim (Option-cases (env.ctx_err (env.hook h w).1.clock)) [
    | inr (y, dead) ↦ ([], h, hs, w, refl, nothing, inr (fine, ground arith, ground arith))
    | inl alive ↦
        let (before, h', after, v, same, ran, failed) =
          run_until_error-IsLeft env hs (looked (env.hook h w).1) u x (ground arith) in
        (
          h ∷ before,
          h',
          after,
          v,
          ap (λ l. h ∷ l) {y = before ++ h' ∷ after} same,
          passed fine alive ran,
          failed,
        )
  ]
]
