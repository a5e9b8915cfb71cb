-- ===== src/Manager/Requests.antt =====
-- What requests do to the configuration in memory, in the reply and in the file
-- (src/AutopilotManager.cpp, src/AutopilotManagerConfig.cpp).
use autopilot_manager.Common.{
  ℕ, ◌+◌, ◌*◌, ◌/◌, arith, ap, pos, ◌≡◌, refl, ◌%◌, Bool, true, some, Double,
}
use autopilot_manager.Manager.Config.{AutopilotManagerConfig, default_config}
use autopilot_manager.Manager.Message.{
  Arguments, ParsedMessage, Padding, init_from_message, append_to_message,
}
use autopilot_manager.Manager.Memory.{ResponseCode, Members, set_configuration, get_configuration}
use autopilot_manager.Manager.File.{file_text, write_to_file}
use autopilot_manager.Manager.File.Lines.{IsPrinter}
use autopilot_manager.Manager.File.RoundTrip.{IsWritable, as_read, file_round_trip}
use autopilot_manager.Manager.{Request, Manager, handle_request, initial_provisioning}

bytes : (n : ℕ) → n % 256 + 256 * (n / 256) ≡ n
bytes n = omega arith

module _ {W : Type 0} where
  -- The upper bytes of the flags of a message.
  abbrev pub padding_of : Arguments W → Padding
  padding_of a = record {
    autopilot_manager_enabled = a.autopilot_manager_enabled / 256;
    safe_landing_enabled = a.safe_landing_enabled / 256;
    safe_landing_try_landing_after_action = a.safe_landing_try_landing_after_action / 256;
    simple_collision_avoid_enabled = a.simple_collision_avoid_enabled / 256;
  }

  -- A flag that is stored in one byte and appended with its padding is whole again.
  pub echo :
      (c : AutopilotManagerConfig W) (p : Padding) (a : Arguments W)
      → append_to_message (init_from_message (ParsedMessage.parsed a) (c, p)).0 ≡ a
  unfolding init_from_message append_to_message
  echo c p a =
      rw
        (
          bytes a.autopilot_manager_enabled,
          bytes a.safe_landing_enabled,
          bytes a.safe_landing_try_landing_after_action,
          bytes a.simple_collision_avoid_enabled,
        )
        refl

module _ {W : Type 0} ⦃d : Double W⦄ where
  -- The configuration that a message sets.
  abbrev pub set_of : Arguments W → AutopilotManagerConfig W
  set_of a = (init_from_message (ParsedMessage.parsed a) (default_config, padding_of a)).0.0

  -- The manager after the configuration is set, and its file written.
  abbrev pub after_set : Arguments W → Manager W → Manager W
  after_set a m = record m {
    members = (set_configuration (set_of a) m.members).0;
    file = some (file_text (set_of a));
  }

  abbrev pub code_of : Arguments W → Members W → ResponseCode
  code_of a m = (set_configuration (set_of a) m).1

  -- What a message does not carry is at its initial value.
  abbrev pub IsForgotten : Members W → Type 0
  IsForgotten n =
      (n.camera_offset_x ≡ d.lit 0 0)
      × (n.camera_offset_y ≡ d.lit 0 0)
      × (n.camera_yaw ≡ d.lit 0 0)
      × (n.landing_site_search_speed ≡ d.lit 0 0)
      × (n.landing_site_search_min_distance_after_abort ≡ d.lit 0 0)
      × (n.landing_site_search_arrival_radius ≡ d.lit 0 0)
      × (n.landing_site_search_assess_time ≡ d.lit 0 0)
      × (n.landing_site_search_strategy ≡ "")
      × (n.landing_site_search_spiral_spacing ≡ d.lit 0 0)
      × (n.landing_site_search_spiral_points ≡ pos 0)

module _ {W : Type 0} (d : Double W) (six : W → W) (printer : IsPrinter d six) where
  -- After the configuration is set from a message and its file written, a reading is answered with
  -- what was set, but for its real numbers to six decimals, for the flag of safe landing, which is
  -- now the one of collision avoidance, and for the upper bytes of the flags. The response code is the one of what was set. The condition is
  -- that no text of the message holds a key of the file or the end of a line.
  pub set_then_get :
      (opened renamed : Bool) (padding later : Padding) (a : Arguments W) (m : Manager W)
      → IsWritable (set_of ⦃d = d⦄ a)
      → (handle_request ⦃d = d⦄ true true padding (Request.set_config (ParsedMessage.parsed a)) m
          ≡ some (
            after_set ⦃d = d⦄ a m,
            some (record { arguments = a; response_code = code_of ⦃d = d⦄ a m.members }),
          ))
        × (handle_request ⦃d = d⦄ opened renamed later Request.get_config (after_set ⦃d = d⦄ a m)
            ≡ some (
              after_set ⦃d = d⦄ a m,
              some (record {
                arguments = append_to_message (as_read six (set_of ⦃d = d⦄ a), later);
                response_code = code_of ⦃d = d⦄ a m.members;
              }),
            ))
  unfolding handle_request write_to_file get_configuration set_configuration init_from_message
  set_then_get opened renamed padding later a m h = (
    ap
        (λ arguments. some (
          after_set ⦃d = d⦄ a m,
          some (record { arguments = arguments; response_code = code_of ⦃d = d⦄ a m.members }),
        ))
        (echo (default_config ⦃d = d⦄) padding a),
    rw (file_round_trip d six printer (set_of ⦃d = d⦄ a) (default_config ⦃d = d⦄) h, handle_request)
        refl,
  )

  -- A start with the file that a set configuration was written to, whatever the members hold then,
  -- gives the members that configuration, but for its real numbers to six decimals and for the flag of
  -- safe landing, which is the one of collision avoidance. The condition is that no text of the message
  -- holds a key of the file or the end of a line.
  pub set_then_restart :
      (a : Arguments W) (m : Manager W) (fresh : Members W)
      → IsWritable (set_of ⦃d = d⦄ a)
      → initial_provisioning ⦃d = d⦄ (record (after_set ⦃d = d⦄ a m) { members = fresh })
        ≡ some (record (after_set ⦃d = d⦄ a m) {
          members = (set_configuration (as_read six (set_of ⦃d = d⦄ a)) fresh).0;
        })
  unfolding initial_provisioning
  set_then_restart a m fresh h =
      rw
        (
          file_round_trip d six printer (set_of ⦃d = d⦄ a) (default_config ⦃d = d⦄) h,
          initial_provisioning,
        )
        refl
