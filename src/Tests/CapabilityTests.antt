-- ===== src/Tests/CapabilityTests.antt =====
-- Routing of two requests.
use star_bridge.Base.{
  ◌<◌, ◌≡◌, refl, ◌||◌, none, some, List, [], ◌∷◌, arith, length, Bytes, codes, true, false,
  starts_with,
}
use star_bridge.Capability.Intent.{is_confirmed, analyze_image_intent, analyze_computer_intent}
use star_bridge.Capability.Scan.{
  count_keyword, count_from, str_at_delimited, is_boundary, is_word, has_cooccurrence,
  cooccurs_from, after_word, in_window,
}
use star_bridge.Capability.Route.{
  NormalizedToolDef, ToolChoiceSpec, choice_auto, choice_named, cap_image, cap_computer,
  cap_web_search, capability_route_tools, capability_analyze_input, capability_decision_summary,
}
use star_bridge.Capability.Active.{
  names_image, names_computer, routed, mask, capability_route_tools-active,
  capability_route_tools-capability_analyze_input, length-capability_decision_summary,
}

abbrev tools : List NormalizedToolDef
tools = record { type = codes "image"; normalized_name = codes "image_generation" } ∷ []

abbrev chosen : ToolChoiceSpec
chosen = record { mode = choice_named; named_tool = codes "dalle" }

abbrev automatic : ToolChoiceSpec
automatic = record { mode = choice_auto; named_tool = [] }

abbrev input : Bytes
input = codes "draw a photo"

capability_route_tools-active_example :
    ((capability_route_tools tools (some chosen) input).active_capabilities
      ≡ mask
          (names_image (some (codes "dalle")) || is_confirmed (analyze_image_intent input))
          (names_computer (some (codes "dalle")) || is_confirmed (analyze_computer_intent input)))
    × (routed (capability_route_tools tools (some chosen) input).routes
        ≡ cap_image ∷ cap_computer ∷ cap_web_search ∷ [])
capability_route_tools-active_example = capability_route_tools-active tools (some chosen) input

capability_route_tools-capability_analyze_input_example :
    (capability_route_tools tools (some automatic) input).active_capabilities
    ≡ capability_analyze_input input
capability_route_tools-capability_analyze_input_example =
    capability_route_tools-capability_analyze_input tools (some automatic) input refl refl

length-capability_decision_summary_example :
    length (capability_decision_summary (capability_route_tools tools none input) 64) < 64
length-capability_decision_summary_example =
    length-capability_decision_summary (capability_route_tools tools none input) 64 (omega arith)

-- A word counts only between boundaries.
counts_photo : count_keyword (codes "photo, photos, a photo") (codes "photo") ≡ 2
unfolding count_keyword count_from str_at_delimited is_boundary is_word starts_with
counts_photo = refl

near_photo :
    has_cooccurrence (codes "draw me a nice photo") (codes "draw") (codes "photo") 80 ≡ true
unfolding has_cooccurrence cooccurs_from after_word in_window str_at_delimited is_boundary is_word
    starts_with
near_photo = refl

far_photo :
    has_cooccurrence (codes "draw me a nice photo") (codes "draw") (codes "photo") 10 ≡ false
unfolding has_cooccurrence cooccurs_from after_word in_window str_at_delimited is_boundary is_word
    starts_with
far_photo = refl
