-- ===== src/Tracking/Replies.antt =====
-- ingestor.go: the branch of `HandleMessage` for the reply of a tracker to a command, and
-- `failedResponse`. Texts are ASCII here, as the GT06 adapter decodes them.
use farbo_rastreamento.Prelude.{
  ℕ, Bool, true, false, not, ◌&&◌, ◌||◌, Option, List, [], ◌∷◌, map, ◌==◌,
}
use farbo_rastreamento.Prelude.Words.{Bytes}
use farbo_rastreamento.Protocols.Text.{to_lower, codes}
use farbo_rastreamento.Protocols.Message.{TrackerMessage}
use farbo_rastreamento.Commands.Service.{Env, World}
use farbo_rastreamento.Commands.Answers.{handle_ack}

starts_with : Bytes → Bytes → Bool
starts_with [] s = true
starts_with (n ∷ ns) [] = false
starts_with (n ∷ ns) (c ∷ cs) = n == c && starts_with ns cs

-- `strings.Contains`.
contains_text : Bytes → Bytes → Bool
unfolding starts_with
contains_text needle [] = starts_with needle []
contains_text needle (c ∷ cs) = starts_with needle (c ∷ cs) || contains_text needle cs

-- The loop over the needles.
contains_any : List Bytes → Bytes → Bool
unfolding contains_text
contains_any [] s = false
contains_any (n ∷ ns) s = contains_text n s || contains_any ns s

abbrev needles : List Bytes
needles =
    codes "fail" ∷ codes "error" ∷ codes "invalid" ∷ codes "password err" ∷ codes "not support" ∷ []

unfoldable pub failed_response : Bytes → Bool
unfolding contains_any to_lower
failed_response response = contains_any needles (map to_lower response)

-- The call of `HandleAck` for a reply.
unfoldable pub handle_reply :
    {F G : Type 0} → Env F → ℕ → Option ℕ → TrackerMessage G → World → World
unfolding failed_response
handle_reply env device vehicle msg w =
    handle_ack env device vehicle msg.correlation_key msg.response
      (not (failed_response msg.response)) w
