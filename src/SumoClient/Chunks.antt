-- ===== src/SumoClient/Chunks.antt =====
-- lambda-extensions/sumoclient/sumoclient.go: `createChunks`.
pub mod Content
pub mod Sizes
use sumologic_lambda_extensi.Base.{
  ℕ, ◌+◌, Option, none, some, List, [], ◌∷◌, ◌++◌, leb, ltb, if◌then◌else◌, length, Error, counted,
  Result, ok, err,
}
use sumologic_lambda_extensi.Json.{JsonMap}
use sumologic_lambda_extensi.SumoClient.Services.{Bytes}

-- '\n'
abbrev pub newline : ℕ
newline = 10

-- The variables of the loop; `current` is `currentChunk`.
pub record Chunking : Type 0 where
  pub chunks : List Bytes
  pub chunk_size : ℕ
  pub current : Bytes
  pub error_count : ℕ

abbrev pub no_chunks : Chunking
no_chunks = record { chunks = []; chunk_size = 0; current = []; error_count = 0 }

-- The part of the body behind the marshalling, `b` being the item's text.
unfoldable pub add_item : ℕ → Bytes → Chunking → Chunking
add_item max_size b c =
    if leb max_size (c.chunk_size + length b + 1)
    then record c { chunks = c.chunks ++ c.current ∷ []; current = b; chunk_size = length b }
    else record c { chunk_size = c.chunk_size + (length b + 1); current = c.current ++ newline ∷ b }

-- An item that cannot be marshalled is counted and left out.
unfoldable pub chunk_item : ℕ → Result Bytes → Chunking → Chunking
chunk_item max_size (err e) c = record c { error_count = c.error_count + 1 }
chunk_item max_size (ok b) c = add_item max_size b c

module _ (marshal : JsonMap → Result Bytes) (max_size : ℕ) where
  unfoldable pub chunk_loop : List JsonMap → Chunking → Chunking
  chunk_loop [] c = c
  chunk_loop (item ∷ items) c = chunk_loop items (chunk_item max_size (marshal item) c)

  unfoldable pub create_chunks : List JsonMap → List Bytes × Option Error
  create_chunks items =
      let c = chunk_loop items no_chunks in
      (
        c.chunks ++ c.current ∷ [],
        if ltb 0 c.error_count
            then some (counted "dropping messages due to json parsing error" c.error_count)
            else none,
      )
