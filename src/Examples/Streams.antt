-- ===== src/Examples/Streams.antt =====
-- Streamed turns and whole requests at concrete inputs.
use decyra_api.Common.{All, Option, none, some, List, [], ◌∷◌}
use decyra_api.Common.Text.{Text, codes, is_ascii_letter}
use decyra_api.Examples.Analysis.{some_box, some_b64, some_prepared}
use decyra_api.Examples.{some_env, some_world, eu_model, some_db, secret}
use decyra_api.Llm.{answered}
use decyra_api.Store.{Msg}
use decyra_api.Turn.Analysis.Protection.{TurnProtected}
use decyra_api.Turn.Dispatch.{json, Branches, chat_completions}
use decyra_api.Turn.Dispatch.Calls.{chat_completions-Protected}
use decyra_api.Turn.Persist.{display}
use decyra_api.Turn.Stream.{Chunk, Opened, Streams, Built, persist_chunks, send_stream, stream_turn}
use decyra_api.Turn.Stream.Delivered.{text_of_chunks, Delivered, send_stream-Delivered}
use decyra_api.Turn.Stream.Written.{AllOrNothing, stream_turn-AllOrNothing}

abbrev chunk_of : Text → Chunk
chunk_of t = record { id = none; model = none; role = none; content = some t; finish_reason = none }

abbrev two_chunks : List Chunk
two_chunks = chunk_of (codes "Hal") ∷ chunk_of (codes "lo") ∷ []

abbrev two_opened : Opened
two_opened = record {
  first = some (chunk_of (codes "Hal"));
  rest = chunk_of (codes "lo") ∷ [];
  failure = none;
}

abbrev some_streams : Streams
some_streams before call = answered (record { chunks = two_chunks; failure = none })

abbrev some_build : List Chunk → List Msg → Option Built
some_build chunks prompt =
    some
      (record { content = some (text_of_chunks chunks); prompt_tokens = 1; completion_tokens = 2 })

send_stream-Delivered_example :
    Delivered
      (codes "Hallo")
      (persist_chunks some_env secret none
        (codes "ada")
        some_streams
        some_build
        some_prepared
        (codes "eu", eu_model)
        two_chunks
        some_db)
      none
      (codes "eu")
      none
      (send_stream some_env secret none
        (codes "ada")
        some_streams
        some_build
        some_prepared
        ((codes "eu", eu_model), two_opened)
        none
        some_db)
unfolding display
send_stream-Delivered_example =
    send_stream-Delivered some_env secret none (codes "ada") some_streams some_build some_prepared
      (codes "eu", eu_model) two_opened some_db (λ a e. absurd (cc (e)))

stream_turn-AllOrNothing_example :
    AllOrNothing some_env secret none
      (codes "ada")
      some_streams
      some_build
      some_prepared
      some_world
      (stream_turn some_env secret none
        (codes "ada")
        some_streams
        some_build
        some_prepared
        (some 1)
        some_world).1
stream_turn-AllOrNothing_example =
    stream_turn-AllOrNothing some_env secret none (codes "ada") some_streams some_build
      some_prepared (some 1) some_world

abbrev some_branches : Branches
some_branches = record {
  box = some_box;
  b64encode = some_b64;
  max_retries = 3;
  streams = some_streams;
  build = some_build;
  stays = none;
  max_upload_bytes = 100;
}

chat_completions-Protected_example :
    All
      (TurnProtected some_env.checker is_ascii_letter)
      (chat_completions some_env some_branches
        (codes "ada")
        (json (some secret))
        some_world).1.calls
chat_completions-Protected_example =
    chat_completions-Protected some_env some_branches (codes "ada") (json (some secret)) some_world
      tt
