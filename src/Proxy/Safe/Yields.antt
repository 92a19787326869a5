-- ===== src/Proxy/Safe/Yields.antt =====
-- A predicate of the application that a computation returns, part by part.
use server_game.Base.{
  ◌≡◌, Bool, true, false, Option, none, some, [], ◌∷◌, Result, ok, err, catching, out_of_range,
  logic_error, runtime_error, bad_cast, dangling, endless, if◌then◌else◌, ◌>>=◌, >>=-ok,
  ok-injective, subst,
}
use server_game.Base.Text.{Text}
use server_game.Application.State.{Application, access_server}
use server_game.Proxy.Stream.{Stream, read_name, extract, open_text}
use server_game.Proxy.Reply.{OutputMode, json, text, succeeded, null}
use server_game.Proxy.Step

module _ (P : Application → Type 0) where
  -- What is returned satisfies the predicate.
  abbrev pub Gives : Result Application → Type 0
  Gives r = (app : Application) → r ≡ ok app → P app

  abbrev pub Yields : Result Step.Outcome → Type 0
  Yields r = (o : Step.Outcome) → r ≡ ok o → P o.0

  pub unparsed-Yields : (app : Application) → P app → Yields (Step.unparsed app)
  unparsed-Yields app p o e = subst (λ x. P x.0) (ok-injective e) p

  pub if-Yields :
      (b : Bool) (r s : Result Step.Outcome) → Yields r → Yields s → Yields (if b then r else s)
  if-Yields true r s hr hs = hr
  if-Yields false r s hr hs = hs

  pub bind-Yields {ℓ} :
      {X : Type ℓ} (r : Result X) (next : X → Result Step.Outcome)
      → ((x : X) → Yields (next x))
      → Yields (r >>= next)
  bind-Yields r next h o e = let (x, e1, e2) = >>=-ok r next e in h x o e2

  pub done-Yields :
      (r : Result Application) (reply : Text)
      → Gives r
      → Yields (r >>= λ app. ok (app, true, reply))
  done-Yields r reply h o e =
      let (app, e1, e2) = >>=-ok r _ e in subst (λ x. P x.0) (ok-injective e2) (h app e1)

  pub catching-Gives :
      (app : Application) (r : Result Application) → P app → Gives r → Gives (catching app r)
  catching-Gives app (ok a) p h b e = h b e
  catching-Gives app (err out_of_range) p h b e = subst P (ok-injective e) p
  catching-Gives app (err logic_error) p h b e = subst P (ok-injective e) p
  catching-Gives app (err runtime_error) p h b e = subst P (ok-injective e) p
  catching-Gives app (err bad_cast) p h b e = subst P (ok-injective e) p
  catching-Gives app (err dangling) p h b e = cc
  catching-Gives app (err endless) p h b e = cc

  pub dispatch-Yields :
      (s : Stream) (f : Application → Result Application) (app : Application)
      → P app
      → Gives (f app)
      → Yields (Step.dispatch s f app)
  unfolding Step.dispatch
  dispatch-Yields s f app p h =
      if-Yields s.eof _ _ (done-Yields (f app) _ h) (unparsed-Yields app p)

  pub dispatch_argument-Yields :
      (s : Stream) (f : Text → Application → Result Application) (app : Application)
      → P app
      → ((name : Text) → Gives (f name app))
      → Yields (Step.dispatch_argument s f app)
  unfolding Step.dispatch_argument
  dispatch_argument-Yields s f app p h =
      bind-Yields (read_name s) _ (λ r. dispatch-Yields r.1 (f r.0) app p (h r.0))

  pub dispatch_setting-Yields :
      (s : Stream) (f : Text → Text → Text → Application → Result Application) (app : Application)
      → P app
      → ((name property value : Text) → Gives (f name property value app))
      → Yields (Step.dispatch_setting s f app)
  dispatch_setting-Yields s f app p h =
      bind-Yields (read_name s) _ (λ r. dispatch-Yields _ (f r.0 _ _) app p (h r.0 _ _))

  module _ (env : Step.Surroundings) where
    pub query-Yields :
        (action : Step.Action) (mode : OutputMode) (s : Stream) (app : Application)
        → P app
        → Yields (Step.query env action mode s app)
    unfolding Step.query
    query-Yields action mode s app p = bind-Yields (access_server app) _ (λ host.
        bind-Yields (Step.answer env action mode s host.game) (λ r. ok (app, succeeded r, r.reply))
          (λ r o e. subst (λ x. P x.0) (ok-injective e) p))

    pub fall_back-Yields :
        (mode : OutputMode) (o : Step.Outcome) → P o.0 → Yields (Step.fall_back env mode o)
    unfolding Step.fall_back
    fall_back-Yields mode (app, true, reply) p o e = subst (λ x. P x.0) (ok-injective e) p
    fall_back-Yields mode (app, false, c ∷ reply) p o e = subst (λ x. P x.0) (ok-injective e) p
    fall_back-Yields text (app, false, []) p o e = subst (λ x. P x.0) (ok-injective e) p
    fall_back-Yields json (app, false, []) p o e =
        bind-Yields (env.dump null) (λ t. ok (app, false, t))
          (λ t u f. subst (λ x. P x.0) (ok-injective f) p) o e

    found-Yields :
        (action : Option Step.Action) (mode : OutputMode) (s : Stream) (app : Application)
        (rest : Result Step.Outcome)
        → P app
        → Yields rest
        → Yields (elim action [ some a ↦ Step.query env a mode s app | none ↦ rest ])
    found-Yields none mode s app rest p h = h
    found-Yields (some a) mode s app rest p h = query-Yields a mode s app p

    pub step_json-Yields :
        (command : Text) (app : Application) → P app → Yields (Step.step_json env command app)
    unfolding Step.step_json
    step_json-Yields command app p =
        found-Yields (Step.find_action (extract [] (open_text command)).0) json
          (extract [] (open_text command)).1 app (Step.fall_back env json (app, false, [])) p
          (fall_back-Yields json (app, false, []) p)

    -- The branches of text mode are all that is left to show.
    pub step_text-Yields :
        (command : Text) (app : Application)
        → P app
        → ((action : Text) (s : Stream) → Yields (Step.perform env command action s app))
        → Yields (Step.step_text env command app)
    unfolding Step.step_text
    step_text-Yields command app p h =
        found-Yields (Step.find_action (extract [] (open_text command)).0) text
          (extract [] (open_text command)).1 app
          (Step.perform env command (extract [] (open_text command)).0
              (extract [] (open_text command)).1 app
            >>= Step.fall_back env text)
          p (finished _ (h (extract [] (open_text command)).0 (extract [] (open_text command)).1))
      where
        finished : (r : Result Step.Outcome) → Yields r → Yields (r >>= Step.fall_back env text)
        finished r k o e =
            let (x, e1, e2) = >>=-ok r (Step.fall_back env text) e in
            fall_back-Yields text x (k x e1) o e2
