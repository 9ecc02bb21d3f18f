-- ===== src/Retrieval.antt =====
-- app/retrieval.py. The embedding provider and pgvector's search are parameters.
use decyra_api.Common.{
  ℕ, Bool, true, false, ◌&&◌, not, Option, none, some, List, [], ◌∷◌, ◌++◌, map, reverse, ◌==◌,
  nat_eq, list_eq, if◌then◌else◌, keep_if,
}
use decyra_api.Common.Text.{Text, codes, is_blank, join, decimal}
use decyra_api.Store.{Msg, Ctx}
use decyra_api.Chat.{user, system}
use decyra_api.World.{embedding_error, Outcome, ok, raised}

pub record RetrievedChunk : Type 0 where
  pub content : Text
  pub filename : Text
  pub chunk_index : ℕ

-- `_CONTEXT_HEADER`
abbrev pub context_header : Text
context_header =
    codes
      "Kontext aus den Unternehmensdokumenten des Nutzers. Beantworte die Frage, wenn möglich, auf Basis dieses Kontexts und nenne die Quelle(n) in Klammern. Wenn der Kontext die Frage nicht abdeckt, sage das offen."

abbrev is_empty : Text → Bool
is_empty [] = true
is_empty (c ∷ s) = false

last_query : List Msg → Text
last_query [] = []
last_query (m ∷ ms) =
    let rest = last_query ms in
    if m.role == user && not (is_empty m.content) then m.content else rest

unfoldable pub latest_user_query : List Msg → Text
unfolding last_query
latest_user_query new_messages = last_query (reverse new_messages)

-- What the search needs of the outside: an embedding of a text, as the literal of its vector (`none`
-- where the provider fails), whether the workspace has an embedded chunk that the setting shows, the
-- nearest chunks to a vector with their similarities, and the threshold's test.
pub record Search : Type 1 where
  pub Similarity : Type 0
  pub embed : Text → Option Text
  pub has_chunks : Ctx → Text → Bool
  pub nearest : Ctx → Text → Text → ℕ → List (RetrievedChunk × Similarity)
  pub reaches_threshold : Similarity → Bool
  pub top_k : ℕ

module _ (search : Search) where
  unfoldable pub retrieve_chunks : Ctx → Text → Text → Outcome (List RetrievedChunk)
  retrieve_chunks ctx ws query =
      if is_blank query
      then ok []
      else if not (search.has_chunks ctx ws)
      then ok []
      else elim (search.embed query) [
        | none ↦ raised embedding_error
        | some vec ↦ ok (
            map (λ r. r.0)
              (keep_if (λ r. search.reaches_threshold r.1)
                (search.nearest ctx ws vec search.top_k)))
      ]

unfoldable pub chunk_join : List RetrievedChunk → Text
unfolding join
chunk_join chunks = join (codes "\n") (map (λ (c : RetrievedChunk). c.content) chunks)

unfoldable pub build_context_message : List RetrievedChunk → Msg
unfolding join decimal
build_context_message chunks = record {
  role = system;
  content =
      context_header
      ++ codes "\n\n"
      ++ join (codes "\n\n") (
          map
            (λ (c : RetrievedChunk).
              codes "[Quelle: "
              ++ c.filename
              ++ codes " #"
              ++ decimal c.chunk_index
              ++ codes "]\n"
              ++ c.content)
            chunks);
}
