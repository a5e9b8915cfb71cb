-- ===== src/CustomAction/Progress.antt =====
-- The runs of an action's stages from the beginning to the end, and the progress that they leave
-- (src/modules/mission_manager/CustomActionHandler.cpp).
use autopilot_manager.Common.{
  ℕ, suc, ◌+◌, ◌<◌, ◌^◌, ◌≡◌, refl, Bool, true, false, ◌&&◌, some, List, [], ◌∷◌, ◌++◌, pos, length,
  ap, ◌∙◌, sym, Double, arith, append-nil,
}
use autopilot_manager.Types.{LandedState}
use autopilot_manager.CustomAction.{
  Result, Stage, ActionMetadata, CustomActionHandler, StageRun, Surroundings, is_success,
  set_result, with_finish, progress_of, execute_stages, execute_custom_action, end_progress_report,
}
use autopilot_manager.CustomAction.Stages.{
  all_pass, with_front, running, add_zero, next_index, report_of, front_report, run_front,
}

-- Small integers are exact in a `double`.
pub record IsPercent {W : Type 0} (d : Double W) : Type 0 where
  pub add_one : (n : ℕ) → n < 2 ^ 32 → d.add (d.of_int (pos n)) (d.lit 1 0) ≡ d.of_int (pos (suc n))
  pub div_self :
      (n : ℕ) → 0 < n → n < 2 ^ 53 → d.div (d.of_int (pos n)) (d.of_int (pos n)) ≡ d.lit 1 0
  pub one_hundred : d.mul (d.lit 1 0) (d.lit 100 0) ≡ d.lit 100 0
  pub hundred_eq : d.eq (d.lit 100 0) (d.lit 100 0) ≡ true

pub zero_add : (n : ℕ) → 0 + n ≡ n
zero_add n = omega arith

and_false : (b : Bool) → b && false ≡ false
and_false b = ground arith

module _ {W : Type 0} (d : Double W) (law : IsPercent d) where
  complete :
      (n : ℕ)
      → n < 2 ^ 32
      → d.mul (d.div (d.add (d.of_int (pos n)) (d.lit 1 0)) (d.of_int (pos (suc n)))) (d.lit 100 0)
        ≡ d.lit 100 0
  complete n h =
      rw (law.add_one n h, law.div_self (suc n) (omega arith) (omega arith), law.one_hundred) refl

  pub report_complete :
      (n : ℕ)
      → n < 2 ^ 32
      → report_of ⦃d = d⦄ (progress_of ⦃d = d⦄ n (suc n)) ≡ (d.lit 100 0, Result.success)
  report_complete n h = ap (report_of ⦃d = d⦄) (complete n h) ∙ rw law.hundred_eq refl

module _ {W S : Type 0} (d : Double W) where
  pub last_report :
      (size i : ℕ) (stage : Stage S) (stages : List (Stage S)) (report : W × Result)
      → front_report ⦃d = d⦄ size i (stage ∷ stages) report
        ≡ report_of ⦃d = d⦄ (progress_of ⦃d = d⦄ (i + length stages) size)
  last_report size i stage [] report =
      ap (λ k. report_of ⦃d = d⦄ (progress_of ⦃d = d⦄ k size)) (sym (add_zero i))
  last_report size i stage (next ∷ stages) report =
      last_report size (i + 1) next stages (report_of ⦃d = d⦄ (progress_of ⦃d = d⦄ i size))
      ∙ ap (λ k. report_of ⦃d = d⦄ (progress_of ⦃d = d⦄ k size)) (next_index i (length stages))

  -- A stopped handler executes no stage.
  pub stopped_lem :
      (runs : ℕ → StageRun) (size i : ℕ) (stages : List (Stage S)) (h : CustomActionHandler W S)
      → execute_stages ⦃d = d⦄ runs size i stages (record h { action_stopped = true })
        ≡ some (record h { action_stopped = true }, [])
  unfolding execute_stages
  stopped_lem runs size i [] h = refl
  stopped_lem runs size i (stage ∷ stages) h = stopped_lem runs size (i + 1) stages h

  halted_lem :
      (runs : ℕ → StageRun) (size i : ℕ) (stages : List (Stage S)) (h : CustomActionHandler W S)
      (stopped : Bool)
      → stopped ≡ true
      → execute_stages ⦃d = d⦄ runs size i stages (record h { action_stopped = stopped })
        ≡ some (record h { action_stopped = true }, [])
  halted_lem runs size i stages h true e = stopped_lem runs size i stages h
  halted_lem runs size i stages h false e = absurd (cc)

  execute-append :
      (m : ActionMetadata S) (front back : List (Stage S)) (stage : Stage S) (around : Surroundings)
      (h : CustomActionHandler W S)
      → execute_custom_action ⦃d = d⦄ (record m { stages = front ++ stage ∷ back }) around h
        ≡ with_finish (
            execute_stages ⦃d = d⦄ around.stage_run
              (length (front ++ stage ∷ back))
              0
              (front ++ stage ∷ back)
              h)
  unfolding execute_custom_action
  execute-append m [] back stage around h = refl
  execute-append m (first ∷ front) back stage around h = refl

  -- The handler that processes the action, at its beginning.
  abbrev pub begun : ActionMetadata S → CustomActionHandler W S → CustomActionHandler W S
  begun m h = record h {
    action_stopped = false;
    actions_metadata = m ∷ h.actions_metadata;
    actions_result = Result.in_progress ∷ h.actions_result;
    actions_progress = d.lit 0 0 ∷ h.actions_progress;
  }

  -- The handler after the action, of which it keeps the metadata, the progress and the result.
  abbrev pub ended :
      ActionMetadata S
      → CustomActionHandler W S
      → LandedState
      → W
      → Result
      → CustomActionHandler W S
  ended m h state progress result = record h {
    action_stopped = false;
    landed_state = state;
    actions = [];
    actions_metadata = m ∷ h.actions_metadata;
    actions_result = result ∷ h.actions_result;
    actions_progress = progress ∷ h.actions_progress;
  }

  abbrev pub report_front :
      ActionMetadata S → List (Stage S) → List (Stage S) → Stage S → W × Result
  report_front m front back stage =
      front_report ⦃d = d⦄ (length (front ++ stage ∷ back)) 0 front (d.lit 0 0, Result.in_progress)

  abbrev pub running_front :
      ActionMetadata S
      → List (Stage S)
      → List (Stage S)
      → Stage S
      → CustomActionHandler W S
      → LandedState
      → CustomActionHandler W S
  running_front m front back stage h state =
      running (begun (record m { stages = front ++ stage ∷ back }) h) h.actions_progress
        h.actions_result state (report_front m front back stage).0
        (report_front m front back stage).1

  pub execute_front :
      (m : ActionMetadata S) (front back : List (Stage S)) (stage : Stage S) (around : Surroundings)
      (h : CustomActionHandler W S)
      → all_pass around.stage_run 0 front ≡ true
      → (state : LandedState) × (execute_custom_action ⦃d = d⦄
            (record m { stages = front ++ stage ∷ back })
            around
            (begun (record m { stages = front ++ stage ∷ back }) h)
          ≡ with_finish (
              with_front front (
                execute_stages ⦃d = d⦄ around.stage_run
                  (length (front ++ stage ∷ back))
                  (length front)
                  (stage ∷ back)
                  (running
                    (begun (record m { stages = front ++ stage ∷ back }) h)
                    h.actions_progress
                    h.actions_result
                    state
                    (front_report ⦃d = d⦄
                      (length (front ++ stage ∷ back))
                      0
                      front
                      (d.lit 0 0, Result.in_progress)).0
                    (front_report ⦃d = d⦄
                      (length (front ++ stage ∷ back))
                      0
                      front
                      (d.lit 0 0, Result.in_progress)).1))))
  execute_front m front back stage around h pass =
      let all = front ++ stage ∷ back in
      let (state, runs_on) =
        run_front ⦃d = d⦄ (begun (record m { stages = all }) h) h.actions_progress h.actions_result
          around.stage_run (length all) 0 front (stage ∷ back) h.landed_state
          (d.lit 0 0, Result.in_progress) pass in
      (
        state,
        execute-append m front back stage around (begun (record m { stages = all }) h)
            ∙ ap with_finish (runs_on ∙ rw (zero_add (length front)) refl),
      )

  pub failed_lem :
      (runs : ℕ → StageRun) (size i : ℕ) (stage : Stage S) (back : List (Stage S))
      (h : CustomActionHandler W S)
      → (runs i).cancelled_before ≡ false
      → is_success (runs i).result ≡ false
      → execute_stages ⦃d = d⦄ runs size i (stage ∷ back) (record h { action_stopped = false })
        ≡ some (record (set_result Result.error h) { action_stopped = true }, stage ∷ [])
  unfolding execute_stages
  failed_lem runs size i stage back h quiet failed = rw (quiet, execute_stages) (rw failed refl)

  pub cancelled_lem :
      (runs : ℕ → StageRun) (size i : ℕ) (stages : List (Stage S)) (stage : Stage S)
      (h : CustomActionHandler W S)
      → (runs i).cancelled_before ≡ true
      → execute_stages ⦃d = d⦄ runs size i (stage ∷ stages) (record h { action_stopped = false })
        ≡ some (record h { action_stopped = true }, [])
  unfolding execute_stages
  cancelled_lem runs size i stages stage h cancelled =
      rw (cancelled, execute_stages) (halted_lem runs size (i + 1) stages h _ cancelled)

  pub end_unchanged :
      (m : ActionMetadata S) (h : CustomActionHandler W S) (state : LandedState) (p : W)
      (r : Result)
      → is_success r ≡ false
      → end_progress_report ⦃d = d⦄ (ended m h state p r) ≡ ended m h state p r
  unfolding end_progress_report
  end_unchanged m h state p r e = rw e (rw (and_false (d.eq p (d.lit 100 0))) refl)

  pub end-success :
      IsPercent d
      → (m : ActionMetadata S) (h : CustomActionHandler W S) (state : LandedState)
      → end_progress_report ⦃d = d⦄ (ended m h state (d.lit 100 0) Result.success)
        ≡ ended m h state (d.lit 100 0) Result.unknown
  unfolding end_progress_report
  end-success law m h state = rw law.hundred_eq refl

  pub execute-all :
      (runs : ℕ → StageRun) (size : ℕ) (stages : List (Stage S)) (h : CustomActionHandler W S)
      (ps : List W) (rs : List Result) (report : W × Result)
      → all_pass runs 0 stages ≡ true
      → (state : LandedState) × (execute_stages ⦃d = d⦄ runs size 0 stages
            (running h ps rs h.landed_state report.0 report.1)
          ≡ some (
            running h ps rs state
                (front_report ⦃d = d⦄ size 0 stages report).0
                (front_report ⦃d = d⦄ size 0 stages report).1,
            stages,
          ))
  unfolding execute_stages
  execute-all runs size stages h ps rs report pass =
      let (state, e) = run_front ⦃d = d⦄ h ps rs runs size 0 stages [] h.landed_state report pass in
      (
        state,
        ap
              (λ l.
                execute_stages ⦃d = d⦄ runs size 0 l
                  (running h ps rs h.landed_state report.0 report.1))
              (sym (append-nil stages))
            ∙ e
            ∙ ap
                (λ l. some (
                  running h ps rs state (front_report ⦃d = d⦄ size 0 stages report).0
                      (front_report ⦃d = d⦄ size 0 stages report).1,
                  l,
                ))
                (append-nil stages),
      )
