-- ===== src/CustomAction/Waits.antt =====
-- The loops that wait for the vehicle to land or to take off
-- (src/modules/mission_manager/CustomActionHandler.cpp, `execute_custom_action`).
use autopilot_manager.Common.{
  ◌≡◌, refl, Bool, true, false, not, ◌&&◌, ◌||◌, some, inl, inr, Bool-cases, List, [], ◌∷◌, arith,
}
use autopilot_manager.Types.{LandedState}
use autopilot_manager.CustomAction.{CustomActionHandler, Poll, interrupt, wait_while}

over_now : (stopped waits : Bool) → not stopped && waits ≡ false → stopped || not waits ≡ true
over_now s w h = ground arith

unseen : (s c r : Bool) → s ≡ false → not c && r ≡ true → s || c ≡ false
unseen s c r h e = ground arith

goes : (s w : Bool) → s ≡ false → w ≡ true → not s && w ≡ true
goes s w h e = ground arith

reached_later : (c w r : Bool) → w ≡ true → not c && (not w || r) ≡ true → r ≡ true
reached_later c w r h e = ground arith

over_next :
    (stopped cancelled waits : Bool)
    → cancelled || not waits ≡ true
    → not (stopped || cancelled) && waits ≡ false
over_next s c w h = ground arith

ends_later : (a b : Bool) → a ≡ false → a || b ≡ true → b ≡ true
ends_later a b h e = ground arith

module _ (waiting : LandedState → Bool) where
  -- A turn of the loop sees a cancellation or the state that is waited for.
  abbrev pub ends : List Poll → Bool
  ends [] = false
  ends (p ∷ polls) = (p.cancelled || not (waiting p.landed_state)) || ends polls

  -- No turn sees a cancellation, and one sees the state that is waited for.
  abbrev pub reached : List Poll → Bool
  reached [] = false
  reached (p ∷ polls) = not p.cancelled && (not (waiting p.landed_state) || reached polls)

  module _ {W S : Type 0} where
    abbrev turn : Poll → CustomActionHandler W S → CustomActionHandler W S
    turn p h = record (interrupt p.cancelled h) { landed_state = p.landed_state }

    leave :
        (polls : List Poll) (h : CustomActionHandler W S)
        → not h.action_stopped && waiting h.landed_state ≡ false
        → (stopped : Bool) × (state : LandedState) × (wait_while waiting polls h
            ≡ some (record h { action_stopped = stopped; landed_state = state }))
          × (stopped || not (waiting state) ≡ true)
    unfolding wait_while
    leave [] h over = (h.action_stopped, h.landed_state, rw over refl, over_now _ _ over)
    leave (p ∷ polls) h over = (h.action_stopped, h.landed_state, rw over refl, over_now _ _ over)

    -- A loop that waits for the vehicle ends once a turn sees a cancellation or the state that is waited
    -- for: the handler is then stopped, or its landed state is one that is not waited for, and nothing
    -- else of what it holds has changed.
    pub wait_ends :
        (polls : List Poll) (h : CustomActionHandler W S)
        → ends polls ≡ true
        → (stopped : Bool) × (state : LandedState) × (wait_while waiting polls h
            ≡ some (record h { action_stopped = stopped; landed_state = state }))
          × (stopped || not (waiting state) ≡ true)
    unfolding wait_while
    wait_ends [] h e = absurd (cc)
    wait_ends (p ∷ polls) h e = elim (Bool-cases (not h.action_stopped && waiting h.landed_state)) [
      | inr over ↦ leave (p ∷ polls) h over
      | inl waits ↦ elim (Bool-cases (p.cancelled || not (waiting p.landed_state))) [
        | inl last ↦
            rw (waits, wait_while)
              (leave polls (turn p h)
                (over_next h.action_stopped p.cancelled (waiting p.landed_state) last))
        | inr more ↦ rw (waits, wait_while) (wait_ends polls (turn p h) (ends_later _ _ more e))
      ]
    ]

    stay :
        (polls : List Poll) (h : CustomActionHandler W S)
        → h.action_stopped ≡ false
        → waiting h.landed_state ≡ false
        → wait_while waiting polls h
          ≡ some (record h { action_stopped = false; landed_state = h.landed_state })
    unfolding wait_while
    stay [] h still over = rw (over, still) refl
    stay (p ∷ polls) h still over = rw (over, still) refl

    -- Without a cancellation the handler is not stopped by the wait.
    pub wait_reached :
        (polls : List Poll) (h : CustomActionHandler W S)
        → h.action_stopped ≡ false
        → reached polls ≡ true
        → (state : LandedState) × (wait_while waiting polls h
            ≡ some (record h { action_stopped = false; landed_state = state }))
    unfolding wait_while
    wait_reached [] h still e = absurd (cc)
    wait_reached (p ∷ polls) h still e = elim (Bool-cases (waiting h.landed_state)) [
      | inr over ↦ (h.landed_state, stay (p ∷ polls) h still over)
      | inl waits ↦ elim (Bool-cases (waiting p.landed_state)) [
        | inr over ↦ (
          p.landed_state,
          rw (goes _ _ still waits, wait_while) (stay polls (turn p h) (unseen _ _ _ still e) over),
        )
        | inl more ↦
            let (state, ends_there) =
              wait_reached polls (turn p h) (unseen _ _ _ still e) (reached_later _ _ _ more e) in
            (state, rw (goes _ _ still waits, wait_while) ends_there)
      ]
    ]
