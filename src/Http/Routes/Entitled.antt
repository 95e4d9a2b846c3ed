-- ===== src/Http/Routes/Entitled.antt =====
-- Whom the routes of internal/httpapi/server.go let pass, by role.
use coeus.Prelude.{
  ◌≡◌, refl, String, Bool, true, ◌||◌, Option, none, some, Result, List, [], ◌∷◌, arith, any,
  str_eq, Outcome, ret, raise, OnRet, OnRet-after, OnRet-always, OnRet-weaken, ◌>>=◌, after,
}
use coeus.Domain.Types.{Uuid, Session}
use coeus.Domain.Errors.{GoError}
use coeus.Storage.World.{World}
use coeus.Http.Tokens.{Claims}
use coeus.Http.Guards.{Reply, Identity, auth_middleware, role_guard, session_window, passing}
use coeus.Http.Guards.Tokens.{Admitted, Admission, admitted, auth_middleware-Admission}
use coeus.Http.Routes.{
  Route, RouteGuard, authenticated, roles, in_window, Context, fresh_context, of_user, guards,
  pass_all, admit,
}

-- The access rules: users are managed by admins, questions are written and images inspected by
-- experts and admins, and everything else is open to every user who is signed in.
pub data Access : Type 0 where
  anyone signed experts admins : Access

abbrev pub access : Route → Access
access Route.healthz = anyone
access Route.readyz = anyone
access Route.register = anyone
access Route.login = anyone
access Route.user_list = admins
access Route.user_update = admins
access Route.user_delete = admins
access Route.user_reset_password = admins
access Route.question_create = experts
access Route.question_upload = experts
access Route.question_update = experts
access Route.question_delete = experts
access Route.image_get = experts
access Route.verification_report_get = experts
access _ = signed

abbrev pub may : Access → String → Bool
may anyone role = true
may signed role = true
may experts role = str_eq role "expert" || str_eq role "admin"
may admins role = str_eq role "admin"

module _ (verify : String → Result GoError Claims) (header : String) (session_id : Uuid)
    (w : World) where
  -- The context of a request that may pass
  abbrev pub EntitledAs : Access → Option Identity → Type 0
  EntitledAs anyone who = Unit
  EntitledAs a none = ⊥
  EntitledAs a (some i) =
      ((w' : World) × Admitted verify header w i w') × (may a i.user.role ≡ true)

  abbrev pub Entitled : Access → Context → Type 0
  Entitled a ctx = EntitledAs a ctx.identity

  abbrev Known : Identity → World → Type 0
  Known i w' = Admitted verify header w i w'

  auth-Known : OnRet Known (auth_middleware verify header w)
  auth-Known = known (auth_middleware verify header w) (auth_middleware-Admission verify header w)
    where
      known : (o : Outcome Reply World Identity) → Admission verify header w o → OnRet Known o
      known (ret i w') (admitted j v a) = a
      known (raise r w') a = tt

  abbrev Found : Context → World → Type 0
  Found ctx w' = (i : Identity) × ((ctx ≡ of_user i) × Known i w')

  -- The guards behind the first, which has found who it is.
  behind :
      (Q : Context → World → Type 0) (gs : List RouteGuard)
      → ((i : Identity) (w' : World)
          → Known i w'
          → OnRet Q (pass_all verify header session_id gs (of_user i) w'))
      → OnRet Q (pass_all verify header session_id (authenticated ∷ gs) fresh_context w)
  unfolding pass_all
  behind Q gs k =
      OnRet-after Found Q ((auth_middleware verify header >>= λ i. passing (of_user i)) w)
        (λ ctx. pass_all verify header session_id gs ctx)
        (OnRet-after Known Found (auth_middleware verify header w) (λ i. passing (of_user i))
          auth-Known (λ i w' a. (i, (refl, a))))
        λ ctx w' (i, (e, a)). rw e (k i w' a)

  by_role :
      (allowed : List String) (i : Identity) (w' : World)
      → OnRet
          (λ ctx _. (ctx ≡ of_user i) × (any (λ a. str_eq i.claims.role a) allowed ≡ true))
          (pass_all verify header session_id (roles allowed ∷ []) (of_user i) w')
  unfolding pass_all role_guard
  by_role allowed i w' = ground arith

  signed-Entitled :
      OnRet
        (λ ctx _. Entitled signed ctx)
        (pass_all verify header session_id (authenticated ∷ []) fresh_context w)
  unfolding pass_all
  signed-Entitled = behind (λ ctx _. Entitled signed ctx) [] λ i w' a. ((w', a), refl)

  windowed :
      (i : Identity) (w' : World)
      → Known i w'
      → (o : Outcome Reply World Session)
      → OnRet
          (λ ctx _. Entitled signed ctx)
          (after
            (after o λ s. passing (record { identity = some i; session = some s }))
            λ ctx. passing ctx)
  windowed i w' a (ret s v) = ((w', a), refl)
  windowed i w' a (raise r v) = tt

  window-Entitled :
      OnRet
        (λ ctx _. Entitled signed ctx)
        (pass_all verify header session_id (authenticated ∷ in_window ∷ []) fresh_context w)
  unfolding pass_all
  window-Entitled =
      behind (λ ctx _. Entitled signed ctx) (in_window ∷ [])
        λ i w' a. windowed i w' a (session_window i.claims.user_id session_id w')

  roles-Entitled :
      (level : Access) (allowed : List String)
      → ((i : Identity)
          → any (λ r. str_eq i.user.role r) allowed ≡ true
          → (w' : World) → Known i w'
          → Entitled level (of_user i))
      → OnRet
          (λ ctx _. Entitled level ctx)
          (pass_all verify header session_id (authenticated ∷ roles allowed ∷ []) fresh_context w)
  roles-Entitled level allowed fits =
      behind (λ ctx _. Entitled level ctx) (roles allowed ∷ [])
        λ i w' a.
          OnRet-weaken
            (λ ctx _. (ctx ≡ of_user i) × (any (λ r. str_eq i.claims.role r) allowed ≡ true))
            (λ ctx _. Entitled level ctx) _ (by_role allowed i w')
            λ ctx _ (e, h). rw e (fits i (rw (← a.role) h) w' a)

  admin-Entitled :
      OnRet
        (λ ctx _. Entitled admins ctx)
        (pass_all verify header session_id
          (authenticated ∷ roles ("admin" ∷ []) ∷ [])
          fresh_context
          w)
  admin-Entitled = roles-Entitled admins ("admin" ∷ []) λ i h w' a. ((w', a), ground arith)

  expert-Entitled :
      OnRet
        (λ ctx _. Entitled experts ctx)
        (pass_all verify header session_id
          (authenticated ∷ roles ("expert" ∷ "admin" ∷ []) ∷ [])
          fresh_context
          w)
  expert-Entitled =
      roles-Entitled experts ("expert" ∷ "admin" ∷ []) λ i h w' a. ((w', a), ground arith)

  -- A request that passes the guards of a route comes from whom the access rules let: where they ask
  -- for a user, one whom AuthMiddleware admits, and with a role that the rules name.
  pub admit-Entitled :
      (route : Route)
      → OnRet (λ ctx _. Entitled (access route) ctx) (admit verify header session_id route w)
  unfolding admit guards
  admit-Entitled Route.healthz =
      OnRet-always (λ ctx _. Entitled anyone ctx)
        (pass_all verify header session_id [] fresh_context w) λ _ _. tt
  admit-Entitled Route.readyz =
      OnRet-always (λ ctx _. Entitled anyone ctx)
        (pass_all verify header session_id [] fresh_context w) λ _ _. tt
  admit-Entitled Route.register =
      OnRet-always (λ ctx _. Entitled anyone ctx)
        (pass_all verify header session_id [] fresh_context w) λ _ _. tt
  admit-Entitled Route.login =
      OnRet-always (λ ctx _. Entitled anyone ctx)
        (pass_all verify header session_id [] fresh_context w) λ _ _. tt
  admit-Entitled Route.refresh = signed-Entitled
  admit-Entitled Route.profile = signed-Entitled
  admit-Entitled Route.session_create = signed-Entitled
  admit-Entitled Route.session_list = signed-Entitled
  admit-Entitled Route.session_get = signed-Entitled
  admit-Entitled Route.session_close = signed-Entitled
  admit-Entitled Route.question_list = signed-Entitled
  admit-Entitled Route.question_get = signed-Entitled
  admit-Entitled Route.image_upload = window-Entitled
  admit-Entitled Route.image_list = window-Entitled
  admit-Entitled Route.user_list = admin-Entitled
  admit-Entitled Route.user_update = admin-Entitled
  admit-Entitled Route.user_delete = admin-Entitled
  admit-Entitled Route.user_reset_password = admin-Entitled
  admit-Entitled Route.question_create = expert-Entitled
  admit-Entitled Route.question_upload = expert-Entitled
  admit-Entitled Route.question_update = expert-Entitled
  admit-Entitled Route.question_delete = expert-Entitled
  admit-Entitled Route.image_get = expert-Entitled
  admit-Entitled Route.verification_report_get = expert-Entitled
