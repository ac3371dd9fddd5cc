-- ===== src/Capability/Route.antt =====
-- The routing decision and its summary.
use Prim.Native.Nat.{bit_or}
use star_bridge.Base.{
  ℕ, ◌+◌, Bool, false, not, ◌&&◌, ◌||◌, Option, none, some, List, [], ◌∷◌, ◌++◌, leb, ◌==◌,
  if◌then◌else◌, Bytes, length, codes, str_eq, is_empty, copy_bounded,
}
use star_bridge.Capability.Intent.{
  RouteConfidence, route_denied, route_weak, route_confirmed, is_confirmed, is_weak,
  analyze_image_intent, analyze_computer_intent,
}

-- The values of `CapabilityFlags`.
abbrev pub cap_image : ℕ
cap_image = 1

abbrev pub cap_computer : ℕ
cap_computer = 2

abbrev pub cap_web_search : ℕ
cap_web_search = 4

-- `NormalizedToolDef`, the fields that routing reads.
pub record NormalizedToolDef : Type 0 where
  pub type : Bytes
  pub normalized_name : Bytes

-- `ToolChoiceMode`
pub data ToolChoiceMode : Type 0 where
  choice_none choice_auto choice_required choice_named : ToolChoiceMode

-- `ToolChoiceSpec`
pub record ToolChoiceSpec : Type 0 where
  pub mode : ToolChoiceMode
  pub named_tool : Bytes

-- `CapabilityRoute`
pub record CapabilityRoute : Type 0 where
  pub capability : ℕ
  pub confidence : RouteConfidence
  pub reason : Bytes

-- `RoutingDecision`. `route_count` is the length of `routes`.
pub record RoutingDecision : Type 0 where
  pub active_capabilities : ℕ
  pub routes : List CapabilityRoute

-- `capability_analyze_input`
unfoldable pub capability_analyze_input : Bytes → ℕ
capability_analyze_input input =
    let image = if is_confirmed (analyze_image_intent input) then cap_image else 0 in
    let computer = if is_confirmed (analyze_computer_intent input) then cap_computer else 0 in
    if is_empty input then 0 else bit_or image computer

-- `capability_input_has_intent`
pub capability_input_has_intent : Bytes → ℕ → Bool
capability_input_has_intent input capability =
    let image = is_confirmed (analyze_image_intent input) in
    let computer = is_confirmed (analyze_computer_intent input) in
    if is_empty input
    then false
    else if capability == cap_image
    then image
    else if capability == cap_computer
    then computer
    else false

-- `tools_have_type`
pub tools_have_type : List NormalizedToolDef → Bytes → Bool
tools_have_type [] type = false
tools_have_type (t ∷ ts) type = str_eq t.type type || tools_have_type ts type

-- `tools_have_name`
pub tools_have_name : List NormalizedToolDef → Bytes → Bool
tools_have_name [] name = false
tools_have_name (t ∷ ts) name = str_eq t.normalized_name name || tools_have_name ts name

-- `build_route`
unfoldable pub build_route : RoutingDecision → ℕ → RouteConfidence → Bytes → RoutingDecision
build_route dec capability confidence reason =
    let route : CapabilityRoute = record {
      capability = capability;
      confidence = confidence;
      reason = copy_bounded 256 reason;
    } in
    if leb 16 (length dec.routes) then dec else record {
      active_capabilities =
          if is_confirmed confidence
          then bit_or dec.active_capabilities capability
          else dec.active_capabilities;
      routes = dec.routes ++ (route ∷ []);
    }

-- The tool that a choice names.
abbrev pub named : Option ToolChoiceSpec → Option Bytes
named none = none
named (some tc) = elim tc.mode [ choice_named ↦ some tc.named_tool | _ ↦ none ]

-- A confidence with its reason.
abbrev pub Verdict : Type 0
Verdict = RouteConfidence × Bytes

abbrev no_intent : Verdict
no_intent = (route_denied, codes "no intent detected")

-- The dash of the reasons, in UTF-8.
abbrev em_dash : Bytes
em_dash = 226 ∷ 128 ∷ 148 ∷ []

-- The first part for images: the tool choice.
unfoldable pub image_choice : List NormalizedToolDef → Option Bytes → Verdict
image_choice tools none = no_intent
image_choice tools (some name) =
    if str_eq name (codes "image_generation")
      || str_eq name (codes "dall-e")
      || str_eq name (codes "dalle")
    then (route_confirmed, codes "tool_choice explicitly names image tool")
    else if tools_have_name tools name && str_eq name (codes "image_generation")
    then (route_confirmed, codes "tool_choice names normalized image tool")
    else no_intent

-- The second part for images: the types of the tools.
unfoldable pub image_types : List NormalizedToolDef → Bytes → Verdict → Verdict
image_types tools input v =
    let intent = analyze_image_intent input in
    if is_confirmed v.0
    then v
    else if not
        (tools_have_type tools (codes "image") || tools_have_type tools (codes "image_generation"))
    then v
    else if is_confirmed intent
    then (route_confirmed, codes "image tool type defined with strong user intent")
    else if is_weak intent
    then (route_weak, codes "image tool type defined but user intent is weak")
    else (
      route_weak,
      codes "image tool type defined but no user intent "
          ++ (em_dash ++ codes " conservative deny"),
    )

-- The third part for images: the input alone.
unfoldable pub image_input : Bytes → Verdict → Verdict
image_input input v =
    let intent = analyze_image_intent input in
    if is_weak v.0
    then v
    else if is_confirmed intent
    then (route_confirmed, codes "strong user intent for image generation")
    else if is_weak intent
    then (
      route_weak,
      codes "weak user intent "
          ++ (em_dash ++ codes " not activating without explicit tool_choice"),
    )
    else v

-- The parts for computer use.
unfoldable pub computer_choice : Option Bytes → Verdict
computer_choice none = no_intent
computer_choice (some name) =
    if str_eq name (codes "computer") || str_eq name (codes "computer_call")
    then (route_confirmed, codes "tool_choice explicitly names computer tool")
    else no_intent

unfoldable pub computer_types : List NormalizedToolDef → Bytes → Verdict → Verdict
computer_types tools input v =
    let intent = analyze_computer_intent input in
    if is_confirmed v.0
    then v
    else if not (tools_have_type tools (codes "computer"))
    then v
    else if is_confirmed intent
    then (route_confirmed, codes "computer tool type defined with strong user intent")
    else if is_weak intent
    then (route_weak, codes "computer tool type defined but user intent is weak")
    else (
      route_weak,
      codes "computer tool type defined but no user intent "
          ++ (em_dash ++ codes " conservative deny"),
    )

unfoldable pub computer_input : Bytes → Verdict → Verdict
computer_input input v =
    let intent = analyze_computer_intent input in
    if is_weak v.0
    then v
    else if is_confirmed intent
    then (route_confirmed, codes "strong user intent for computer use")
    else v

unfoldable pub image_verdict : List NormalizedToolDef → Option ToolChoiceSpec → Bytes → Verdict
image_verdict tools tc input =
    image_input input (image_types tools input (image_choice tools (named tc)))

unfoldable pub computer_verdict : List NormalizedToolDef → Option ToolChoiceSpec → Bytes → Verdict
computer_verdict tools tc input =
    computer_input input (computer_types tools input (computer_choice (named tc)))

-- `capability_route_tools`
unfoldable pub capability_route_tools :
    List NormalizedToolDef → Option ToolChoiceSpec → Bytes → RoutingDecision
capability_route_tools tools tc input =
    let image = image_verdict tools tc input in
    let computer = computer_verdict tools tc input in
    build_route
      (build_route
        (build_route (record { active_capabilities = 0; routes = [] }) cap_image image.0 image.1)
        cap_computer computer.0 computer.1)
      cap_web_search route_denied (codes "not supported by bridge; agent handles browsing natively")

-- The line of a route in `capability_decision_summary`.
pub route_line : CapabilityRoute → Bytes
route_line r =
    let capability =
      if r.capability == cap_image
      then codes "image"
      else if r.capability == cap_computer
      then codes "computer"
      else if r.capability == cap_web_search
      then codes "web_search"
      else codes "unknown" in
    let confidence : Bytes = elim r.confidence [
      | route_denied ↦ codes "denied"
      | route_weak ↦ codes "weak"
      | route_confirmed ↦ codes "confirmed"
    ] in
    capability ++ (codes ": " ++ (confidence ++ (codes " (" ++ (r.reason ++ codes ")\n"))))

-- The loop of `capability_decision_summary`: it stops at the first line that does not fit.
unfoldable pub summary_lines : ℕ → Bytes → List CapabilityRoute → Bytes
summary_lines max_len dest [] = dest
summary_lines max_len dest (r ∷ rs) =
    let rest = summary_lines max_len (dest ++ route_line r) rs in
    if leb max_len (length dest + length (route_line r) + 1) then dest else rest

-- Without the newline at the end.
unfoldable pub trim_newline : Bytes → Bytes
trim_newline [] = []
trim_newline (c ∷ []) = if c == b'\n' then [] else c ∷ []
trim_newline (c ∷ d ∷ s) = c ∷ trim_newline (d ∷ s)

-- `capability_decision_summary`, into a buffer of `max_len` bytes.
unfoldable pub capability_decision_summary : RoutingDecision → ℕ → Bytes
capability_decision_summary dec max_len = trim_newline (summary_lines max_len [] dec.routes)
