-- ===== src/Capability/Intent.antt =====
-- The word lists, and what a user's input says on its own.
use Prim.Native.String.{String}
use star_bridge.Base.{
  ℕ, ◌+◌, Bool, true, false, not, ◌&&◌, ◌||◌, List, [], ◌∷◌, ltb, if◌then◌else◌, Bytes, codes,
}
use star_bridge.Capability.Scan.{count_keyword, has_cooccurrence}

-- `RouteConfidence`
pub data RouteConfidence : Type 0 where
  route_denied route_weak route_confirmed : RouteConfidence

-- `c >= ROUTE_CONFIRMED`
abbrev pub is_confirmed : RouteConfidence → Bool
is_confirmed route_confirmed = true
is_confirmed _ = false

-- `c >= ROUTE_WEAK`
abbrev pub is_weak : RouteConfidence → Bool
is_weak route_denied = false
is_weak _ = true

-- `s_negative_image_patterns`
abbrev negative_image_patterns : List String
negative_image_patterns =
    "<img" ∷ "src=\"" ∷ "src='" ∷ "png" ∷ "jpg" ∷ "jpeg" ∷ "gif" ∷ "svg" ∷ "icon" ∷ "favicon"
    ∷ "avatar" ∷ "thumbnail" ∷ "screenshot" ∷ "data:image" ∷ "base64" ∷ ".png" ∷ ".jpg" ∷ ".jpeg"
    ∷ ".gif" ∷ ".svg" ∷ "image/png" ∷ "image/jpeg" ∷ "image/gif" ∷ "image/svg" ∷ "alt=\"" ∷ "alt='"
    ∷ "background-image" ∷ "background: url" ∷ "background:url" ∷ "url(" ∷ "url('" ∷ "url(\""
    ∷ "```" ∷ "def " ∷ "function " ∷ "const " ∷ "let " ∷ "var " ∷ "import " ∷ "require(" ∷ "<svg"
    ∷ "<canvas" ∷ []

-- `s_negative_computer_patterns`
abbrev negative_computer_patterns : List String
negative_computer_patterns =
    "```" ∷ "def " ∷ "function " ∷ "const " ∷ "let " ∷ "var " ∷ "computer_science"
    ∷ "computer vision" ∷ "computer graphics" ∷ "computation" ∷ "computational" ∷ "compute" ∷ []

-- `s_image_strong_keywords`
abbrev image_strong_keywords : List String
image_strong_keywords =
    "generate_image" ∷ "generate image" ∷ "create_image" ∷ "create image" ∷ "draw_image"
    ∷ "draw image" ∷ "make_image" ∷ "make image" ∷ "generate picture" ∷ "create picture"
    ∷ "draw picture" ∷ "generate photo" ∷ "create photo" ∷ "generate an image" ∷ "create an image"
    ∷ "draw an image" ∷ "generate a picture" ∷ "create a picture" ∷ "image generation"
    ∷ "image generator" ∷ "text_to_image" ∷ "text to image" ∷ "txt2img" ∷ "imagine" ∷ "imagine a"
    ∷ "imagine an" ∷ "visualize" ∷ "visualise" ∷ "dall-e" ∷ "dall e" ∷ "dalle" ∷ "midjourney"
    ∷ "stable diffusion" ∷ "stability ai" ∷ "openai image" ∷ []

-- `s_image_co_pair1`
abbrev image_co_pair1 : List String
image_co_pair1 = "generate" ∷ "create" ∷ "draw" ∷ "make" ∷ "render" ∷ "produce" ∷ []

-- `s_image_co_pair2`
abbrev image_co_pair2 : List String
image_co_pair2 =
    "image" ∷ "picture" ∷ "photo" ∷ "photograph" ∷ "illustration" ∷ "artwork" ∷ "visual" ∷ []

-- `s_computer_strong_keywords`
abbrev computer_strong_keywords : List String
computer_strong_keywords =
    "computer_call" ∷ "computer use" ∷ "use computer" ∷ "control computer" ∷ "control desktop"
    ∷ "control browser" ∷ "desktop control" ∷ "browser control" ∷ "click" ∷ "type on" ∷ "move mouse"
    ∷ "press key" ∷ "take screenshot" ∷ "take a screenshot" ∷ "screenshot the" ∷ "screenshot of"
    ∷ "scroll" ∷ "scroll down" ∷ "scroll up" ∷ "open browser" ∷ "open application" ∷ "open app"
    ∷ "use the desktop" ∷ "use desktop" ∷ "operate computer" ∷ "operate desktop" ∷ []

-- `s_computer_action`
abbrev computer_action : List String
computer_action =
    "use" ∷ "control" ∷ "operate" ∷ "open" ∷ "run" ∷ "launch" ∷ "click" ∷ "type" ∷ "scroll" ∷ []

-- `s_computer_target`
abbrev computer_target : List String
computer_target =
    "computer" ∷ "desktop" ∷ "browser" ∷ "application" ∷ "app" ∷ "terminal" ∷ "window" ∷ []

-- `has_negative_pattern`
has_negative_pattern : Bytes → List String → Bool
has_negative_pattern input [] = false
has_negative_pattern input (p ∷ ps) =
    ltb 0 (count_keyword input (codes p)) || has_negative_pattern input ps

-- `count_strong_keywords`
count_strong_keywords : Bytes → List String → ℕ
count_strong_keywords input [] = 0
count_strong_keywords input (k ∷ ks) =
    count_keyword input (codes k) + count_strong_keywords input ks

-- One action near one of the targets.
near_any : Bytes → String → List String → ℕ → Bool
near_any input action [] window = false
near_any input action (t ∷ ts) window =
    has_cooccurrence input (codes action) (codes t) window || near_any input action ts window

-- One of the actions near one of the targets: the two loops of the analyses.
any_near : Bytes → List String → List String → ℕ → Bool
any_near input [] targets window = false
any_near input (a ∷ actions) targets window =
    near_any input a targets window || any_near input actions targets window

-- `analyze_image_intent`
pub analyze_image_intent : Bytes → RouteConfidence
analyze_image_intent input =
    let negative = has_negative_pattern input negative_image_patterns in
    let near = any_near input image_co_pair1 image_co_pair2 80 in
    let mentions =
      count_keyword input (codes "image")
      + count_keyword input (codes "picture")
      + count_keyword input (codes "photo") in
    if ltb 0 (count_strong_keywords input image_strong_keywords)
    then route_confirmed
    else if near && not negative
    then route_confirmed
    else if near && negative
    then route_weak
    else if ltb 0 mentions && not negative
    then route_weak
    else route_denied

-- `analyze_computer_intent`
pub analyze_computer_intent : Bytes → RouteConfidence
analyze_computer_intent input =
    let negative = has_negative_pattern input negative_computer_patterns in
    let near = any_near input computer_action computer_target 60 in
    if ltb 0 (count_strong_keywords input computer_strong_keywords)
    then route_confirmed
    else if near && not negative
    then route_confirmed
    else if near && negative
    then route_weak
    else route_denied
