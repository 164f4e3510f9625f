-- ===== src/Filters/Actions/Laws.antt =====
-- What the actions of a rule do: the calls that they plan, and how far the plan is carried out.
use mathlib.Core.List.{append-nil, append_assoc}
use elvish_email.Base.{
  ◌≡◌, Bool, true, false, List, [], ◌∷◌, ◌++◌, arith, if◌then◌else◌, ◌||◌, ◌&&◌, ltb, length, refl,
}
use elvish_email.Base.Text.{Text, lit, text_eq, truthy, Unicode}
use elvish_email.Filters.Match.{text_or_empty, norm}
use elvish_email.Filters.Rules.{Action}
use elvish_email.Filters.Actions.{
  Call, Outcome, move_message, set_message_read, delete_message, resolved, rejected, action_type,
  supported_action, filter_supported_actions, run, apply_actions,
}

module _ (U : Unicode) (id : Text) where
  -- The call of one action, where it makes one.
  pub call_of : Action → List Call
  call_of a =
      let folder = norm U (text_or_empty a.value) in
      if text_eq (action_type U a) (lit "move")
      then (if truthy folder then move_message id folder ∷ [] else [])
      else if text_eq (action_type U a) (lit "mark_read")
      then set_message_read id ∷ []
      else if text_eq (action_type U a) (lit "delete")
      then delete_message id ∷ []
      else []

  pub plan : List Action → List Call
  plan [] = []
  plan (a ∷ acts) = call_of a ++ plan acts

  -- The types that make no call at all, in order.
  pub passed_over : List Action → List Text
  passed_over [] = []
  passed_over (a ∷ acts) =
      let rest = passed_over acts in
      if text_eq (action_type U a) (lit "move")
        || text_eq (action_type U a) (lit "mark_read")
        || text_eq (action_type U a) (lit "delete")
      then rest
      else action_type U a ∷ rest

module _ {S : Type 0} (perform : Call → S → S × Bool) where
  -- The calls one after the other, up to the first that fails.
  pub perform_all : List Call → S → S × Bool
  perform_all [] s = (s, true)
  perform_all (c ∷ cs) s =
      let (s', ok) = perform c s in let rest = perform_all cs s' in if ok then rest else (s', false)

abbrev pub ending : Bool → List Text → Outcome
ending ok skipped = if ok then resolved true skipped else rejected

module _ (U : Unicode) (id : Text) {S : Type 0} (perform : Call → S → S × Bool) where
  run_lem :
      (acts : List Action) (skipped : List Text) (s : S)
      → run U perform id acts skipped s ≡ (
          let (s', ok) = perform_all perform (plan U id acts) s in
          (s', ending ok (skipped ++ passed_over U id acts)))
  unfolding run plan passed_over perform_all call_of
  run_lem [] skipped s = rw append-nil
  run_lem (a ∷ acts) skipped s =
      let t = action_type U a in
      let folder = norm U (text_or_empty a.value) in
      ground (
        arith,
        run_lem acts skipped s,
        run_lem acts skipped (perform (move_message id folder) s).0,
        run_lem acts skipped (perform (set_message_read id) s).0,
        run_lem acts skipped (perform (delete_message id) s).0,
        run_lem acts (skipped ++ t ∷ []) s,
        append_assoc skipped (t ∷ []) (passed_over U id acts),
      )

plan-filter :
    (U : Unicode) (id : Text) (acts : List Action)
    → plan U id (filter_supported_actions U acts) ≡ plan U id acts
unfolding plan filter_supported_actions call_of supported_action
plan-filter U id [] = refl
plan-filter U id (a ∷ acts) = ground (arith, plan-filter U id acts)

-- applyActions does nothing without the manifest client, a message id or a supported action;
-- otherwise it makes the calls that the actions plan, in order and up to the first that is
-- rejected, and is fulfilled exactly when all of them are.
pub apply_actions-plan :
    (U : Unicode) (id : Text) {S : Type 0} (perform : Call → S → S × Bool) (manifest : Bool)
    (acts : List Action) (s : S)
    → apply_actions U perform manifest id acts s ≡ (
        if manifest && (truthy id && ltb 0 (length (filter_supported_actions U acts)))
        then (let (s', ok) = perform_all perform (plan U id acts) s in
            (s', ending ok (passed_over U id (filter_supported_actions U acts))))
        else (s, resolved false []))
unfolding apply_actions
apply_actions-plan U id perform manifest acts s =
    ground
      (arith, plan-filter U id acts, run_lem U id perform (filter_supported_actions U acts) [] s)
