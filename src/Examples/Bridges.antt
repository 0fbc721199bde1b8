-- ===== src/Examples/Bridges.antt =====
-- Frames of the bridge of git over HTTP.
use remotish.Shared.{Text, text, ok, true, [], ◌∷◌, ◌≡◌, refl, arith}
use remotish.Bridge.{
  BridgeFrame, response, is_id, are_hex_digits, decode_bridge_frame, value_of_frame,
}
use remotish.Bridge.Frames.{IsFrame, decode_bridge_frame-value, decode_bridge_frame-IsFrame}

abbrev an_id : Text
an_id = text "0123456789abcdef0123456789abcdef"

abbrev found : BridgeFrame
found = response an_id an_id an_id 200 ((text "content-type", text "text/plain") ∷ []) []

id_tested : is_id an_id ≡ true
unfolding is_id are_hex_digits
id_tested = refl

found-IsFrame : IsFrame found
found-IsFrame = (
  id_tested,
  id_tested,
  id_tested,
  (omega arith, omega arith),
  (omega arith, ((omega arith, omega arith), tt)),
)

decode_bridge_frame-IsFrame_example :
    IsFrame found × (decode_bridge_frame (value_of_frame found) ≡ ok found)
decode_bridge_frame-IsFrame_example =
    decode_bridge_frame-IsFrame (value_of_frame found) found
      (decode_bridge_frame-value found found-IsFrame)
