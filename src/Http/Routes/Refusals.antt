-- ===== src/Http/Routes/Refusals.antt =====
-- What the guards of internal/httpapi/middleware.go leave behind.
use coeus.Prelude.{
  ◌≡◌, refl, ◌∙◌, String, Bool, true, false, any, str_eq, Option, none, some, Result, List, [], ◌∷◌,
  Outcome, ret, raise, after, guard,
}
use coeus.Domain.Types.{Uuid, Session}
use coeus.Domain.Errors.{GoError}
use coeus.Storage.World.{Db, World}
use coeus.Http.Tokens.{Claims}
use coeus.Http.Guards.{
  Reply, Identity, unauthorized, forbidden, hidden, gone, auth_middleware, role_guard,
  session_window, passing,
}
use coeus.Http.Guards.Tokens.{Admission, admitted, refused, auth_middleware-Admission}
use coeus.Http.Guards.Window.{
  Verdict, passes, unknown, unreachable, foreign, over, session_window-Verdict,
}
use coeus.Http.Routes.{
  Route, RouteGuard, authenticated, roles, in_window, Context, fresh_context, of_user, pass,
  role_of, in_window_of, guards, pass_all, admit,
}

-- The replies of the guards: 401, 403, 404 and 410
pub data Refusal : Reply → Type 0 where
  no_user : Refusal unauthorized
  wrong_role : Refusal forbidden
  no_session : Refusal hidden
  session_over : Refusal gone

-- A guard leaves the tables as they are, and what it replies is a refusal.
abbrev pub Guarded : {A : Type 0} → Db → Outcome Reply World A → Type 0
Guarded db (ret a w') = w'.db ≡ db
Guarded db (raise reply w') = Refusal reply × (w'.db ≡ db)

module _ (db : Db) {A B : Type 0} where
  Guarded-after :
      (o : Outcome Reply World A) (f : A → World → Outcome Reply World B)
      → Guarded db o
      → ((a : A) (w' : World) → Guarded w'.db (f a w'))
      → Guarded db (after o f)
  Guarded-after (ret a w') f h k = subst_db (f a w') (k a w') h
    where
      subst_db : {d : Db} (o : Outcome Reply World B) → Guarded d o → d ≡ db → Guarded db o
      subst_db (ret b v) e e' = e ∙ e'
      subst_db (raise reply v) (r, e) e' = (r, e ∙ e')
  Guarded-after (raise reply w') f h k = h

module _ (verify : String → Result GoError Claims) (header : String) (session_id : Uuid) where
  auth-Guarded : (w : World) → Guarded w.db (auth_middleware verify header w)
  auth-Guarded w = by (auth_middleware verify header w) (auth_middleware-Admission verify header w)
    where
      by : (o : Outcome Reply World Identity) → Admission verify header w o → Guarded w.db o
      by (ret i w') (admitted j v a) = a.unchanged
      by (raise reply w') (refused v same) = (no_user, same)

  role-Guarded :
      (allowed : List String) (role : Option String) (w : World)
      → Guarded w.db (role_guard allowed role w)
  unfolding role_guard
  role-Guarded allowed none w = (wrong_role, refl)
  role-Guarded allowed (some role) w = checked (any (λ a. str_eq role a) allowed)
    where
      checked : (b : Bool) → Guarded w.db (guard b forbidden w)
      checked true = refl
      checked false = (wrong_role, refl)

  window-Guarded : (user_id : Uuid) (w : World) → Guarded w.db (session_window user_id session_id w)
  window-Guarded user_id w =
      by (session_window user_id session_id w) (session_window-Verdict user_id session_id w)
    where
      by : (o : Outcome Reply World Session) → Verdict user_id session_id w o → Guarded w.db o
      by (ret s w') (passes a t v found own status ends early same) = same
      by (raise reply w') (unknown v missing same) = (no_session, same)
      by (raise reply w') (unreachable e v bad same) = (no_session, same)
      by (raise reply w') (foreign s v found other same) = (no_session, same)
      by (raise reply w') (over s v found own shut same) = (session_over, same)

  pass-Guarded :
      (g : RouteGuard) (ctx : Context) (w : World)
      → Guarded w.db (pass verify header session_id g ctx w)
  pass-Guarded authenticated ctx w =
      Guarded-after w.db (auth_middleware verify header w) (λ i. passing (of_user i))
        (auth-Guarded w) (λ i w'. refl)
  pass-Guarded (roles allowed) ctx w =
      Guarded-after w.db (role_guard allowed (role_of ctx.identity) w) (λ _. passing ctx)
        (role-Guarded allowed (role_of ctx.identity) w) (λ _ w'. refl)
  pass-Guarded in_window ctx w = by ctx.identity
    where
      by : (who : Option Identity) → Guarded w.db (in_window_of who session_id w)
      by none = (no_session, refl)
      by (some i) =
          Guarded-after w.db (session_window i.claims.user_id session_id w)
            (λ s. passing (record { identity = some i; session = some s }))
            (window-Guarded i.claims.user_id w) (λ s w'. refl)

  pass_all-Guarded :
      (gs : List RouteGuard) (ctx : Context) (w : World)
      → Guarded w.db (pass_all verify header session_id gs ctx w)
  unfolding pass_all
  pass_all-Guarded [] ctx w = refl
  pass_all-Guarded (g ∷ gs) ctx w =
      Guarded-after w.db (pass verify header session_id g ctx w)
        (λ ctx'. pass_all verify header session_id gs ctx') (pass-Guarded g ctx w)
        (λ ctx' w'. pass_all-Guarded gs ctx' w')

  -- The guards of a route leave the tables as they are; a request that they end has one of their
  -- four replies.
  pub admit-Guarded :
      (route : Route) (w : World) → Guarded w.db (admit verify header session_id route w)
  unfolding admit
  admit-Guarded route w = pass_all-Guarded (guards route) fresh_context w
