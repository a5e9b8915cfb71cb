-- ===== src/Startup/Discovery.antt =====
-- The vehicle that the program starts for (src/AutopilotManager.cpp, `start`).
use autopilot_manager.Common.{
  ◌≡◌, refl, ◌∙◌, Bool, true, false, none, some, List, [], ◌∷◌, ◌++◌, All, pos, Double, arith,
}
use autopilot_manager.Manager.{Manager}
use autopilot_manager.Startup.{Surroundings, Started, find_system, discover, start_modules, start}

module _ {S : Type 0} (has_autopilot : S → Bool) where
  -- No system of the list has an autopilot.
  abbrev pub NoAutopilot : List S → Type 0
  NoAutopilot systems = All (λ s. has_autopilot s ≡ false) systems

  find_front :
      (front systems : List S)
      → NoAutopilot front
      → find_system has_autopilot (front ++ systems) ≡ find_system has_autopilot systems
  unfolding find_system
  find_front [] systems h = refl
  find_front (s ∷ front) systems (a, h) = rw a (find_front front systems h)

  find_here :
      (s : S) (systems : List S)
      → has_autopilot s ≡ true
      → find_system has_autopilot (s ∷ systems) ≡ some s
  unfolding find_system
  find_here s systems h = rw h

  find_none : (systems : List S) → NoAutopilot systems → find_system has_autopilot systems ≡ none
  unfolding find_system
  find_none [] h = refl
  find_none (s ∷ systems) (a, h) = rw a (find_none systems h)

  discover_next :
      (systems : List S) (events : List (List S))
      → find_system has_autopilot systems ≡ none
      → discover has_autopilot (systems ∷ events) ≡ discover has_autopilot events
  unfolding discover
  discover_next systems events h = ground (arith, h)

  discover_now :
      (s : S) (systems : List S) (events : List (List S))
      → find_system has_autopilot systems ≡ some s
      → discover has_autopilot (systems ∷ events) ≡ some s
  unfolding discover
  discover_now s systems events h = ground (arith, h)

  discover-none :
      (events : List (List S)) → All NoAutopilot events → discover has_autopilot events ≡ none
  unfolding discover
  discover-none [] h = refl
  discover-none (systems ∷ events) (a, h) =
      discover_next systems events (find_none systems a) ∙ discover-none events h

  discover_first :
      (before after : List (List S)) (front back : List S) (s : S)
      → All NoAutopilot before
      → NoAutopilot front
      → has_autopilot s ≡ true
      → discover has_autopilot (before ++ (front ++ s ∷ back) ∷ after) ≡ some s
  discover_first [] after front back s h f a =
      discover_now s (front ++ s ∷ back) after (find_front front (s ∷ back) f ∙ find_here s back a)
  discover_first (systems ∷ before) after front back s (b, h) f a =
      discover_next systems (before ++ (front ++ s ∷ back) ∷ after) (find_none systems b)
      ∙ discover_first before after front back s h f a

module _ {W P Q M D S : Type 0} ⦃d : Double W⦄ where
  -- The first system with an autopilot, in the first call of the callback that has one, is discovered,
  -- and the modules run if the connection succeeds; without one in the time that is waited, and without
  -- a connection, the process exits with 1.
  pub start_by_first_autopilot :
      (has_autopilot : S → Bool) (u : Surroundings W P Q M D) (m : Manager W)
      (before after : List (List S)) (front back : List S) (s : S)
      → All (NoAutopilot has_autopilot) before
      → NoAutopilot has_autopilot front
      → has_autopilot s ≡ true
      → let events = before ++ (front ++ s ∷ back) ∷ after in
        (discover has_autopilot events ≡ some s)
        × (start has_autopilot true events u m ≡ Started.runs (start_modules u m).0)
        × (start has_autopilot true before u m ≡ Started.exits (pos 1))
        × (start has_autopilot false events u m ≡ Started.exits (pos 1))
  unfolding start
  start_by_first_autopilot has_autopilot u m before after front back s b f a =
      let found = discover_first has_autopilot before after front back s b f a in
      let missing = discover-none has_autopilot before b in
      (found, ground (arith, found), ground (arith, missing), refl)
