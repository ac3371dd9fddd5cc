-- ===== src/Capability/Active.antt =====
-- Which capabilities a decision activates.
use Prim.Native.Nat.{bit_or}
use star_bridge.Base.{
  ℕ, ◌+◌, ◌<◌, ◌≤◌, ◌≡◌, refl, ap, sym, ◌∙◌, Bool, true, false, ◌||◌, Option, none, some, List, [],
  ◌∷◌, ◌++◌, arith, Bytes, length, length-append, codes, str_eq, if◌then◌else◌, leb, Bool-cases,
  inl, inr, is_empty,
}
use star_bridge.Capability.Intent.{
  RouteConfidence, route_denied, route_weak, route_confirmed, is_confirmed, analyze_image_intent,
  analyze_computer_intent,
}
use star_bridge.Capability.Route.{
  cap_image, cap_computer, cap_web_search, NormalizedToolDef, ToolChoiceSpec, CapabilityRoute,
  RoutingDecision, build_route, named, image_choice, image_types, image_input, computer_choice,
  computer_types, computer_input, image_verdict, computer_verdict, capability_route_tools,
  capability_analyze_input, route_line, summary_lines, trim_newline, capability_decision_summary,
}

-- The choice names an image tool.
pub names_image : Option Bytes → Bool
names_image none = false
names_image (some name) =
    str_eq name (codes "image_generation")
    || str_eq name (codes "dall-e")
    || str_eq name (codes "dalle")

-- The choice names the computer tool.
pub names_computer : Option Bytes → Bool
names_computer none = false
names_computer (some name) = str_eq name (codes "computer") || str_eq name (codes "computer_call")

image_confirmed :
    (tools : List NormalizedToolDef) (name : Option Bytes) (input : Bytes)
    → is_confirmed (image_input input (image_types tools input (image_choice tools name))).0
      ≡ names_image name || is_confirmed (analyze_image_intent input)
unfolding image_input image_types image_choice names_image
image_confirmed tools none input = ground arith
image_confirmed tools (some name) input = ground arith

computer_confirmed :
    (tools : List NormalizedToolDef) (name : Option Bytes) (input : Bytes)
    → is_confirmed (computer_input input (computer_types tools input (computer_choice name))).0
      ≡ names_computer name || is_confirmed (analyze_computer_intent input)
unfolding computer_input computer_types computer_choice names_computer
computer_confirmed tools none input = ground arith
computer_confirmed tools (some name) input = ground arith

-- The capabilities of the routes of a decision, in order.
pub routed : List CapabilityRoute → List ℕ
routed [] = []
routed (r ∷ rs) = r.capability ∷ routed rs

-- A mask with the image bit and the computer bit.
abbrev pub mask : Bool → Bool → ℕ
mask image computer = (if image then cap_image else 0) + (if computer then cap_computer else 0)

-- What the three routes add up to.
built :
    (c d : RouteConfidence) (r r' r'' : Bytes)
    → let dec : RoutingDecision =
        build_route
          (build_route
            (build_route (record { active_capabilities = 0; routes = [] }) cap_image c r)
            cap_computer
            d
            r')
          cap_web_search
          route_denied
          r'' in
      (dec.active_capabilities ≡ mask (is_confirmed c) (is_confirmed d))
      × (routed dec.routes ≡ cap_image ∷ cap_computer ∷ cap_web_search ∷ [])
unfolding build_route routed
built route_denied route_denied r r' r'' = (refl, refl)
built route_denied route_weak r r' r'' = (refl, refl)
built route_denied route_confirmed r r' r'' = (refl, refl)
built route_weak route_denied r r' r'' = (refl, refl)
built route_weak route_weak r r' r'' = (refl, refl)
built route_weak route_confirmed r r' r'' = (refl, refl)
built route_confirmed route_denied r r' r'' = (refl, refl)
built route_confirmed route_weak r r' r'' = (refl, refl)
built route_confirmed route_confirmed r r' r'' = (refl, refl)

-- A decision has one route for images, one for computer use and one for web search. It activates
-- images just when the tool choice names an image tool or the input alone confirms the intent, and
-- computer use likewise, and never web search; the definitions of the tools activate nothing. The tool
-- choice "none" forbids nothing: it counts as a choice that names no tool, and the input alone decides.
pub capability_route_tools-active :
    (tools : List NormalizedToolDef) (tc : Option ToolChoiceSpec) (input : Bytes)
    → ((capability_route_tools tools tc input).active_capabilities
        ≡ mask
            (names_image (named tc) || is_confirmed (analyze_image_intent input))
            (names_computer (named tc) || is_confirmed (analyze_computer_intent input)))
      × (routed (capability_route_tools tools tc input).routes
          ≡ cap_image ∷ cap_computer ∷ cap_web_search ∷ [])
unfolding capability_route_tools image_verdict computer_verdict
capability_route_tools-active tools tc input =
    let image = image_verdict tools tc input in
    let computer = computer_verdict tools tc input in
    let (active, routes) =
      built image.0 computer.0 image.1 computer.1
        (codes "not supported by bridge; agent handles browsing natively") in
    (
      active
          ∙ ap (λ b. mask b (is_confirmed computer.0)) (image_confirmed tools (named tc) input)
          ∙ ap (mask (names_image (named tc) || is_confirmed (analyze_image_intent input)))
              (computer_confirmed tools (named tc) input),
      routes,
    )

bits : (i c : Bool) → bit_or (if i then cap_image else 0) (if c then cap_computer else 0) ≡ mask i c
bits true true = refl
bits true false = refl
bits false true = refl
bits false false = refl

-- Without a tool choice that names a tool, so for the choices "auto", "required" and "none" and for no
-- choice, and for an input that is not empty, a decision activates what the analysis of the input alone
-- activates, whatever tools are defined. In particular the choice "none" does not stop it.
pub capability_route_tools-capability_analyze_input :
    (tools : List NormalizedToolDef) (tc : Option ToolChoiceSpec) (input : Bytes)
    → named tc ≡ none
    → is_empty input ≡ false
    → (capability_route_tools tools tc input).active_capabilities ≡ capability_analyze_input input
unfolding capability_analyze_input names_image names_computer
capability_route_tools-capability_analyze_input tools tc input e filled =
    (capability_route_tools-active tools tc input).0
    ∙ rw (e, filled)
        (sym (
          bits (is_confirmed (analyze_image_intent input))
            (is_confirmed (analyze_computer_intent input))))

summary_lines-length :
    (max_len : ℕ) (dest : Bytes) (rs : List CapabilityRoute)
    → length dest < max_len
    → length (summary_lines max_len dest rs) < max_len
unfolding summary_lines
summary_lines-length max_len dest [] h = h
summary_lines-length max_len dest (r ∷ rs) h =
    elim (Bool-cases (leb max_len (length dest + length (route_line r) + 1))) [
      | inl full ↦ rw full h
      | inr room ↦ rw room (
          summary_lines-length max_len (dest ++ route_line r) rs
            (ground (arith, length-append dest (route_line r))))
    ]

length-trim_newline : (s : Bytes) → length (trim_newline s) ≤ length s
unfolding trim_newline
length-trim_newline [] = omega arith
length-trim_newline (c ∷ []) = ground arith
length-trim_newline (c ∷ d ∷ s) = omega (arith, length-trim_newline (d ∷ s))

-- The summary of any decision fits in its buffer, with the terminator.
pub length-capability_decision_summary :
    (dec : RoutingDecision) (max_len : ℕ)
    → 0 < max_len
    → length (capability_decision_summary dec max_len) < max_len
unfolding capability_decision_summary
length-capability_decision_summary dec max_len h = omega (
  arith,
  summary_lines-length max_len [] dec.routes h,
  length-trim_newline (summary_lines max_len [] dec.routes),
)
