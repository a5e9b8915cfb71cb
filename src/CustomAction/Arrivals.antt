-- ===== src/CustomAction/Arrivals.antt =====
-- The callbacks of `run` and the thread of `new_action_check`
-- (src/modules/mission_manager/CustomActionHandler.cpp).
use autopilot_manager.Common.{
  ℕ, ◌+◌, ◌-◌, ◌*◌, ◌/◌, ◌<◌, ◌^◌, ◌≡◌, refl, Bool, true, false, not, ◌||◌, Option, none, some,
  List, [], ◌∷◌, length, ◌++◌, sym, subst, arith, ap, Double, leb, ◌==◌, if◌then◌else◌,
}
use autopilot_manager.Types.{LandedState}
use autopilot_manager.CustomAction.{
  Result, ActionToExecute, Stage, ActionMetadata, CustomActionHandler, Surroundings, interrupt,
  process_custom_action,
}
use autopilot_manager.CustomAction.Stages.{all_pass}
use autopilot_manager.CustomAction.Progress.{IsPercent, ended}
use autopilot_manager.CustomAction.Outcomes.{all_stages_succeed}

abbrev is_new : ActionToExecute → List ActionToExecute → Bool
is_new action [] = true
is_new action (last ∷ _) = not (last.id == action.id)

module _ {W S : Type 0} where
  -- `run`, at a time in nanoseconds.
  unfoldable pub run : ℕ → CustomActionHandler W S → CustomActionHandler W S
  run now h = record h {
    start_time = now + 60 * 1_000_000_000;
    new_action_time = now + 60 * 1_000_000_000;
  }

  -- The callback of a cancellation reads the newest metadata, which is undefined where there is none.
  unfoldable pub on_cancellation : CustomActionHandler W S → Option (CustomActionHandler W S)
  on_cancellation h = elim h.actions_metadata [ [] ↦ none | (_ ∷ _) ↦ some (interrupt true h) ]

  abbrev pub is_due : ℕ → CustomActionHandler W S → Bool
  is_due now h =
      h.new_action_time == h.start_time || leb 1500 ((now - h.new_action_time) / 1_000_000)

  -- The callback of an action.
  unfoldable pub on_action : ℕ × ActionToExecute → CustomActionHandler W S → CustomActionHandler W S
  on_action (now, action) h =
      if is_new action h.actions
      then (if is_due now h
          then record h { actions = action ∷ h.actions; new_action = true; new_action_time = now }
          else h)
      else h

  unfoldable pub arrive :
      List (ℕ × ActionToExecute) → CustomActionHandler W S → CustomActionHandler W S
  arrive [] h = h
  arrive (a ∷ arrivals) h = arrive arrivals (on_action a h)

-- The actions that arrive while one is processed: before the actions are cleared, and after that.
pub record Arrivals : Type 0 where
  pub before_clear : List (ℕ × ActionToExecute)
  pub after_clear : List (ℕ × ActionToExecute)

module _ {W S : Type 0} ⦃d : Double W⦄ where
  abbrev after_processing :
      List (ℕ × ActionToExecute)
      → Option (CustomActionHandler W S × List (Stage S))
      → Option (CustomActionHandler W S × List (Stage S))
  after_processing arrivals none = none
  after_processing arrivals (some (h, executed)) =
      some (record (arrive arrivals h) { new_action = false }, executed)

  -- One turn of `new_action_check`; `metadata_of` is what the file of the actions gives. The processing
  -- reads nothing that an arrival changes, so that the arrivals before the actions are cleared stand
  -- before it. The newest action is undefined where there is none.
  unfoldable pub new_action_check :
      (ActionToExecute → ActionMetadata S)
      → Surroundings
      → Arrivals
      → CustomActionHandler W S
      → Option (CustomActionHandler W S × List (Stage S))
  new_action_check metadata_of around arrivals h = elim h.new_action [
    | false ↦ some (h, [])
    | true ↦ elim h.actions [
      | [] ↦ none
      | (action ∷ _) ↦
          after_processing arrivals.after_clear
            (process_custom_action (metadata_of action) around (arrive arrivals.before_clear h))
    ]
  ]

  abbrev with_executed :
      List (Stage S)
      → Option (CustomActionHandler W S × List (Stage S))
      → Option (CustomActionHandler W S × List (Stage S))
  with_executed executed none = none
  with_executed executed (some (h, others)) = some (h, executed ++ others)

  -- Further turns while nothing arrives, with the stages that they execute.
  unfoldable pub further_turns :
      (ActionToExecute → ActionMetadata S)
      → List Surroundings
      → CustomActionHandler W S
      → Option (CustomActionHandler W S × List (Stage S))
  further_turns metadata_of [] h = some (h, [])
  further_turns metadata_of (around ∷ later) h =
      elim (new_action_check metadata_of around (record { before_clear = []; after_clear = [] })
        h) [
          | none ↦ none
          | some (n, executed) ↦ with_executed executed (further_turns metadata_of later n)
        ]

  idle_turns :
      (metadata_of : ActionToExecute → ActionMetadata S) (later : List Surroundings)
      (h : CustomActionHandler W S)
      → let idle = record h { new_action = false } in
        further_turns metadata_of later idle ≡ some (idle, [])
  unfolding further_turns new_action_check
  idle_turns metadata_of [] h = refl
  idle_turns metadata_of (around ∷ later) h = ap (with_executed []) (idle_turns metadata_of later h)

module _ {W S : Type 0} where
  arrive-stopped :
      (arrivals : List (ℕ × ActionToExecute)) (h : CustomActionHandler W S)
      → h.action_stopped ≡ false
      → (arrive arrivals h).action_stopped ≡ false
  unfolding arrive on_action
  arrive-stopped [] h e = e
  arrive-stopped (a ∷ arrivals) h e = arrive-stopped arrivals (on_action a h) (ground arith)

module _ {W S : Type 0} (d : Double W) where
  -- An action that arrives at a handler which is idle and not stopped, at the first arrival or 1.5 s
  -- after the one before, and whose stages all pass, at least one and fewer than 2 ^ 32 more, is executed
  -- by the next turn: every stage, in the order of the metadata; its progress is then 100, and the
  -- handler is idle again.
  pub arrived_action_runs :
      IsPercent d
      → (metadata_of : ActionToExecute → ActionMetadata S) (m : ActionMetadata S) (stage : Stage S)
        (stages : List (Stage S)) (around : Surroundings) (now : ℕ) (action : ActionToExecute)
        (h : CustomActionHandler W S)
      → let n = record m { stages = stage ∷ stages } in
        let idle = record h { actions = []; action_stopped = false } in
        metadata_of action ≡ n
        → is_due now h ≡ true
        → all_pass around.stage_run 0 (stage ∷ stages) ≡ true
        → length stages < 2 ^ 32
        → (state : LandedState) × (new_action_check ⦃d = d⦄ metadata_of around
              (record { before_clear = []; after_clear = [] })
              (on_action (now, action) idle)
            ≡ some (
              record (ended d n h state (d.lit 100 0) Result.unknown) {
                new_action = false;
                new_action_time = now;
              },
              stage ∷ stages,
            ))
  unfolding new_action_check on_action arrive
  arrived_action_runs law metadata_of m stage stages around now action h known due pass few =
      let received = record h { actions = action ∷ []; new_action = true; new_action_time = now } in
      let (state, e) = all_stages_succeed d law m stage stages around received pass few in
      (state, rw (due, on_action) (rw known (ap (after_processing ⦃d = d⦄ []) e)))

  -- An action is processed whose stages all pass, at least one and fewer than 2 ^ 32 more, on a handler
  -- that is not stopped, and any other actions arrive meanwhile, before and after the actions are cleared.
  -- The turn executes the stages of the one action and no other, and after it any number of turns without
  -- a further arrival execute nothing and leave the handler as it is.
  pub arrivals_are_lost :
      IsPercent d
      → (metadata_of : ActionToExecute → ActionMetadata S) (m : ActionMetadata S) (stage : Stage S)
        (stages : List (Stage S)) (around : Surroundings) (arrivals : Arrivals)
        (action : ActionToExecute) (earlier : List ActionToExecute) (h : CustomActionHandler W S)
        (later : List Surroundings)
      → let n = record m { stages = stage ∷ stages } in
        let received = record h {
          new_action = true;
          actions = action ∷ earlier;
          action_stopped = false;
        } in
        metadata_of action ≡ n
        → all_pass around.stage_run 0 (stage ∷ stages) ≡ true
        → length stages < 2 ^ 32
        → (after : CustomActionHandler W S) × (new_action_check ⦃d = d⦄ metadata_of around arrivals
              received
            ≡ some (after, stage ∷ stages))
          × (further_turns ⦃d = d⦄ metadata_of later after ≡ some (after, []))
  unfolding new_action_check
  arrivals_are_lost law metadata_of m stage stages around arrivals action earlier h later known pass
        few =
      let received = record h {
        new_action = true;
        actions = action ∷ earlier;
        action_stopped = false;
      } in
      let busy = arrive arrivals.before_clear received in
      let running : record busy { action_stopped = false } ≡ busy =
        ap (λ b. record busy { action_stopped = b })
          (sym (arrive-stopped arrivals.before_clear received refl)) in
      let n = record m { stages = stage ∷ stages } in
      let (state, e) = all_stages_succeed d law m stage stages around busy pass few in
      let cleared = ended d n busy state (d.lit 100 0) Result.unknown in
      let after = record (arrive arrivals.after_clear cleared) { new_action = false } in
      (
        after,
        rw known (
            ap (after_processing ⦃d = d⦄ arrivals.after_clear) (
              subst (λ b. process_custom_action ⦃d = d⦄ n around b ≡ some (cleared, stage ∷ stages))
                running e)),
        idle_turns ⦃d = d⦄ metadata_of later (arrive arrivals.after_clear cleared),
      )
