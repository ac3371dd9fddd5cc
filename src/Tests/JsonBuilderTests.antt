-- ===== src/Tests/JsonBuilderTests.antt =====
-- Calls of the JSON builder.
use star_bridge.Base.{◌≡◌, refl, List, [], ◌∷◌, codes}
use star_bridge.Sessions.{pos}
use star_bridge.Frame.Build.{decimal}
use star_bridge.JsonBuilder.{
  jsonb_init, jsonb_put, comma_index, jsonb_comma, deeper, shallower, mark_first, jsonb_begin,
  jsonb_end, jsonb_quoted, show_long, BuilderCall, object_begin, object_end, array_begin, array_end,
  number, jsonb_key, jsonb_call, jsonb_calls,
}

-- `{"count":42}`
abbrev calls : List BuilderCall
calls = object_begin ∷ number (codes "count") (pos 42) ∷ object_end ∷ []

-- Two objects in an array: the second one starts with a comma.
second_object :
    (jsonb_calls
      (array_begin
        ∷ object_begin
        ∷ number (codes "a") (pos 1)
        ∷ object_end
        ∷ object_begin
        ∷ number (codes "b") (pos 2)
        ∷ object_end
        ∷ array_end
        ∷ [])
      (jsonb_init 64)).text
    ≡ codes "[{\"a\":1}{,\"b\":2}]"
unfolding jsonb_calls jsonb_call jsonb_begin jsonb_end jsonb_key jsonb_comma jsonb_quoted jsonb_put
    jsonb_init comma_index deeper shallower mark_first show_long decimal
second_object = refl
