-- ===== src/Middleware/Chain.antt =====
-- Laws of the chain.
use ai_switch.Base.{
  ◌≡◌, subst, true, false, List, [], ◌∷◌, ◌++◌, some, arith, if◌then◌else◌, All, Bool-cases, inl,
  inr,
}
use ai_switch.Base.Result.{ok, return, ◌>>=◌, Result-cases}
use ai_switch.Http.{Response}
use ai_switch.Middleware.{Context, Middleware, process}

-- A stopped request has a response.
abbrev pub HasResponse : Context → Type 0
HasResponse ctx = ctx.terminated ≡ true → (res : Response) × (ctx.response ≡ some res)

-- Whatever a link returns keeps `P`.
abbrev pub Keeps : {S : Type 0} → (Context → Type 0) → Middleware S → Type 0
Keeps {S} P mw = (ctx ctx' : Context) (s s' : S) → P ctx → mw ctx s ≡ (ok ctx', s') → P ctx'

module _ {S : Type 0} where
  -- For a request that is not stopped before, the end of a chain runs exactly where its beginning
  -- let the request pass.
  pub process-append :
      (xs ys : List (Middleware S)) (ctx : Context) (s : S)
      → ctx.terminated ≡ false
      → process (xs ++ ys) ctx s
        ≡ (do ctx' ← process xs ctx; if ctx'.terminated then return ctx' else process ys ctx') s
  unfolding process
  process-append [] ys ctx s h = rw h
  process-append (mw ∷ xs) ys ctx s h = elim (Result-cases (mw ctx s).0) [
    | inl (ctx', e) ↦ elim (Bool-cases ctx'.terminated) [
      | inl t ↦ simp (e, t)
      | inr t ↦ simp (e, t) (process-append xs ys ctx' (mw ctx s).1 t)
    ]
    | inr (inl (x, e)) ↦ rw e
    | inr (inr e) ↦ rw e
  ]

  pub process-Keeps :
      (P : Context → Type 0) (mws : List (Middleware S)) → All (Keeps P) mws → Keeps P (process mws)
  unfolding process
  process-Keeps P [] _ ctx ctx' s s' p e = subst P (ground arith) p
  process-Keeps P (mw ∷ mws) (k, ks) ctx ctx' s s' p e = elim (Result-cases (mw ctx s).0) [
    | inl (c, f) ↦
        let kept : P c = k ctx c s (mw ctx s).1 p (ground arith) in
        elim (Bool-cases c.terminated) [
          | inl t ↦ subst P (ground arith) kept
          | inr t ↦ process-Keeps P mws ks c ctx' (mw ctx s).1 s' kept (ground arith)
        ]
    | inr stopped ↦ absurd (ground arith)
  ]
