-- ===== src/Examples/Invocations.antt =====
-- The INVOKE payload at concrete inputs.
use aire_go.Base.{short_buffer, sentinel, wrapf, err, ◌≡◌, refl, ◌∷◌}
use aire_go.Base.Text.{codes}
use aire_go.Varint.{read_varint}
use aire_go.Invoke.{decode_invoke_payload}
use aire_go.Strings.{read_string}

-- The first string claims to be longer than the payload.
decode_short_agent :
    decode_invoke_payload (5 ∷ codes "echo")
    ≡ err (wrapf "aire: INVOKE: agent-id" (sentinel short_buffer))
unfolding decode_invoke_payload read_string read_varint
decode_short_agent = refl
