-- ===== src/Tests/BuildTests.antt =====
-- Frames that are built: a tool result, a tool error and a request.
use star_bridge.Base.{◌+◌, ◌≡◌, false, [], ◌∷◌, ◌++◌, Bytes, length, codes, ltb}
use star_bridge.Sessions.{pos}
use star_bridge.Frame.Build.{
  Request, result_head, result_body, frame_build_tool_result, frame_build_tool_error,
  frame_build_request,
}
use star_bridge.Frame.Build.Sizes.{
  IsSound, frame_build_tool_result-overrun, frame_build_tool_error-IsSound,
}
use star_bridge.Frame.Build.RequestSize.{bridge_request}
use star_bridge.Frame.Build.RequestText.{Carried, request_start, frame_build_request-carries}

abbrev read_tool : Bytes
read_tool = codes "read"

abbrev request_id : Bytes
request_id = codes "req-1"

frame_build_tool_result-overrun_example :
    (frame_build_tool_result request_id read_tool (codes "{}")).overrun
    ≡ ltb 4096 (length (result_head request_id read_tool) + length (result_body (codes "{}")))
frame_build_tool_result-overrun_example =
    frame_build_tool_result-overrun request_id read_tool (codes "{}")

frame_build_tool_error-IsSound_example :
    IsSound (frame_build_tool_error request_id read_tool (codes "tool \"read\" failed"))
frame_build_tool_error-IsSound_example =
    frame_build_tool_error-IsSound request_id read_tool (codes "tool \"read\" failed")

abbrev request : Request
request = record {
  request_id = request_id;
  input = codes "list \"all\"\n";
  system_instructions = [];
  tools_json = [];
  reasoning_effort = codes "high";
  previous_response_id = [];
  auto_load_resume_session = false;
  context_tokens = pos 4096;
  reset_session = false;
  tool_history_json = codes "[]";
}

frame_build_request-carries_example :
    IsSound (frame_build_request (bridge_request request))
    × ((shown : Bytes) × ((rest : Bytes) × (Carried (codes "list \"all\"\n") shown
            × ((frame_build_request (bridge_request request)).text
                ≡ request_start request_id ++ (shown ++ (b'"' ∷ rest))))))
frame_build_request-carries_example = frame_build_request-carries request
