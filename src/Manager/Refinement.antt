-- ===== src/Manager/Refinement.antt =====
-- The manager's requests against a specification that holds one configuration (src/AutopilotManager.cpp).
use autopilot_manager.Common.{
  ℕ, ◌≡◌, refl, ap, ◌∙◌, true, Option, none, some, List, [], ◌∷◌, All, Double,
}
use autopilot_manager.Manager.Config.{AutopilotManagerConfig, default_config}
use autopilot_manager.Manager.Message.{
  Arguments, ParsedMessage, Padding, stores, store_first, append_to_message, init_from_message,
}
use autopilot_manager.Manager.Memory.{
  ResponseCode, Members, response_code, set_configuration, get_configuration,
}
use autopilot_manager.Manager.File.{file_text, write_to_file, init_from_file}
use autopilot_manager.Manager.File.Lines.{IsPrinter}
use autopilot_manager.Manager.File.RoundTrip.{IsWritable, as_read, file_round_trip}
use autopilot_manager.Manager.Requests.{set_of, echo}
use autopilot_manager.Manager.{Request, Reply, Manager, handle_request}

module _ {W : Type 0} ⦃d : Double W⦄ where
  -- The requests, one after the other, each with the padding of its new configuration, where every file
  -- can be written; `none` where a conversion throws.
  unfoldable pub handle_requests :
      List (Padding × Request W) → Manager W → Option (Manager W × List (Option (Reply W)))
  handle_requests [] m = some (m, [])
  handle_requests ((padding, r) ∷ requests) m = elim (handle_request true true padding r m) [
    | none ↦ none
    | some (n, reply) ↦ elim (handle_requests requests n) [
      | none ↦ none
      | some (after, replies) ↦ some (after, reply ∷ replies)
    ]
  ]

  abbrev pub code_of : AutopilotManagerConfig W → ResponseCode
  code_of s =
      response_code s.decision_maker_input_type s.safe_landing_enabled
        s.simple_collision_avoid_enabled

  -- What the reply to a message with an error has: the initial values, and over them the arguments that were
  -- stored before the error, without the texts.
  abbrev pub partly_stored : ℕ → Arguments W → Padding → Arguments W
  partly_stored n a padding = append_to_message (store_first n (stores a) (default_config, padding))

  -- The specification: its state is the configuration that was set last. `six` is what printing and
  -- reading leaves of a number. A reading sends each flag with the padding in its upper bytes.
  abbrev pub specified :
      (W → W)
      → Padding × Request W
      → AutopilotManagerConfig W
      → AutopilotManagerConfig W × Option (Reply W)
  specified six (padding, Request.get_config) s = (
    s,
    some (record {
      arguments = append_to_message (as_read six s, padding);
      response_code = code_of s;
    }),
  )
  specified six (padding, Request.set_config (ParsedMessage.parsed a)) s =
      (set_of a, some (record { arguments = a; response_code = code_of (set_of a) }))
  specified six (padding, Request.set_config (ParsedMessage.failed n a)) s = (
    s,
    some (record { arguments = partly_stored n a padding; response_code = ResponseCode.failed }),
  )
  specified six (padding, Request.other) s = (s, none)

  abbrev pub specified_replies :
      (W → W) → List (Padding × Request W) → AutopilotManagerConfig W → List (Option (Reply W))
  specified_replies six [] s = []
  specified_replies six (r ∷ requests) s =
      (specified six r s).1 ∷ specified_replies six requests (specified six r s).0

  abbrev pub specified_config :
      (W → W) → List (Padding × Request W) → AutopilotManagerConfig W → AutopilotManagerConfig W
  specified_config six [] s = s
  specified_config six (r ∷ requests) s = specified_config six requests (specified six r s).0

  -- A request to set the configuration has arguments that can be written.
  abbrev pub Admissible : Padding × Request W → Type 0
  Admissible (_, Request.set_config (ParsedMessage.parsed a)) = IsWritable (set_of a)
  Admissible _ = Unit

-- The manager holds the configuration in memory and in its file.
pub record Represents {W : Type 0} (d : Double W) (s : AutopilotManagerConfig W) (m : Manager W)
    : Type 0 where
  pub held : m.members ≡ (set_configuration s m.members).0
  pub stored : m.file ≡ some (file_text ⦃d = d⦄ s)
  pub writable : IsWritable s

module _ {W : Type 0} (d : Double W) (six : W → W) (printer : IsPrinter d six) where
  -- The answer to a reading, by what is read and what the members hold.
  abbrev answer :
      Padding
      → AutopilotManagerConfig W
      → Members W
      → Manager W
      → Option (Manager W × Option (Reply W))
  answer padding config members m = some (
    m,
    some (record {
      arguments = append_to_message (config, padding);
      response_code =
          response_code members.decision_maker_input_type members.safe_landing_enabled
            members.simple_collision_avoid_enabled;
    }),
  )

  read_back :
      (s : AutopilotManagerConfig W) (m : Manager W)
      → Represents d s m
      → init_from_file ⦃d = d⦄ m.file (default_config ⦃d = d⦄) ≡ some (as_read six s, true)
  read_back s m h =
      ap (λ file. init_from_file ⦃d = d⦄ file (default_config ⦃d = d⦄)) h.stored
      ∙ file_round_trip d six printer s (default_config ⦃d = d⦄) h.writable

  refines_one :
      (r : Padding × Request W) (s : AutopilotManagerConfig W) (m : Manager W)
      → Represents d s m
      → Admissible ⦃d = d⦄ r
      → (n : Manager W) × (handle_request ⦃d = d⦄ true true r.0 r.1 m
          ≡ some (n, (specified ⦃d = d⦄ six r s).1))
        × Represents d (specified ⦃d = d⦄ six r s).0 n
  unfolding handle_request set_configuration get_configuration init_from_message write_to_file
  refines_one (padding, Request.get_config) s m h a = (
    m,
    rw (read_back s m h, handle_request)
        (ap (λ members. answer padding (as_read six s) members m) h.held),
    h,
  )
  refines_one (padding, Request.set_config (ParsedMessage.parsed a)) s m h writable = (
    record m {
      members = (set_configuration (set_of ⦃d = d⦄ a) m.members).0;
      file = some (file_text ⦃d = d⦄ (set_of ⦃d = d⦄ a));
    },
    ap
        (λ arguments. some (
          record m {
            members = (set_configuration (set_of ⦃d = d⦄ a) m.members).0;
            file = some (file_text ⦃d = d⦄ (set_of ⦃d = d⦄ a));
          },
          some (record {
            arguments = arguments;
            response_code = code_of ⦃d = d⦄ (set_of ⦃d = d⦄ a);
          }),
        ))
        (echo (default_config ⦃d = d⦄) padding a),
    record { held = refl; stored = refl; writable = writable },
  )
  refines_one (padding, Request.set_config (ParsedMessage.failed n a)) s m h ok = (m, refl, h)
  refines_one (padding, Request.other) s m h a = (m, refl, h)

  -- Any sequence of requests, each to set the configuration with arguments that can be written and each
  -- writing of the file a success, on a manager that holds a configuration in memory and in its file:
  -- every reply is the one of a specification whose only state is the configuration that was set last, and
  -- the manager then holds that one. The specification echoes the arguments of a request to set; it
  -- answers a reading by its configuration, but for the numbers to six decimals, for the flag of safe
  -- landing, which is the one of collision avoidance, and for the upper bytes of the flags, which are
  -- uninitialised memory; and a message with an error by initial values, over which the arguments before the
  -- error are stored, without changing its state.
  pub requests_refine :
      (requests : List (Padding × Request W)) (s : AutopilotManagerConfig W) (m : Manager W)
      → Represents d s m
      → All (Admissible ⦃d = d⦄) requests
      → (n : Manager W) × (handle_requests ⦃d = d⦄ requests m
          ≡ some (n, specified_replies ⦃d = d⦄ six requests s))
        × Represents d (specified_config ⦃d = d⦄ six requests s) n
  unfolding handle_requests
  requests_refine [] s m h a = (m, refl, h)
  requests_refine (r ∷ requests) s m h (a, others) =
      let (n, first, holds) = refines_one r s m h a in
      let (after, rest, ends) =
        requests_refine requests (specified ⦃d = d⦄ six r s).0 n holds others in
      (after, rw (first, handle_requests) (rw rest refl), ends)
