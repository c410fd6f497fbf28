-- ===== src/Object/Tests.antt =====
-- Objects in memory, a client and a server.
use julea.Common.{
  take, ℕ, ◌≡◌, refl, true, false, none, some, List, [], ◌∷◌, ◌++◌, map, length, arith,
  if◌then◌else◌, ◌==◌, All,
}
use julea.Semantics.{storage}
use julea.Message.{
  Message, new, append_n, can_append, appended, add_operation, extend, get_count, le_bytes,
  new_reply,
}
use julea.Message.Reserve.{total, joined}
use julea.Message.Operations.{operation, append_each}
use julea.Message.Wire.{on_wire, set_semantics}
use julea.MemoryChunk
use julea.Statistics
use julea.ObjectBackend.{ObjectBackend}
use julea.Server.{reply_to}
use julea.Server.Answers.{answered, count_fields}
use julea.Server.Object.{Serving, handle_write}
use julea.Kv.Tests.{semantics, blank, tens, tens-pos, arrived, arrived-Arrived}
use julea.Object.{Object, Write, chunks, write_each, write_local, write_request, write_result}
use julea.Object.Chunks.{write_bytes_of, Chained, chunks-Chained}
use julea.Object.Arrival.{Ready, WriteFits, CanSend}
use julea.Object.Remote.{synced, handle_write-write_local}
use julea.Object.Reply.{write_answers, written, write_reply, write_result-write_answers}
use julea.Object.Unopened.{unopened, handle_write-unopened}

chunks-Chained_example :
    (ws : List Write) × (chunks 6 2 (1 ∷ 2 ∷ 3 ∷ 4 ∷ 5 ∷ []) 10 ≡ some ws)
    × (joined (map write_bytes_of ws) ≡ 1 ∷ 2 ∷ 3 ∷ 4 ∷ 5 ∷ [])
    × Chained 2 10 ws
chunks-Chained_example =
    chunks-Chained 6 2 (1 ∷ 2 ∷ 3 ∷ 4 ∷ 5 ∷ []) 10 (omega arith) (omega arith) (omega arith)

-- The state is what was written, the last write first; a flush leaves a mark. An empty path cannot
-- be opened.
abbrev pub in_memory : ObjectBackend
in_memory = record {
  State = List ℕ;
  Handle = List ℕ;
  create = λ s namespace path. (s, some path);
  open_object = λ s namespace path. (s, if length path == 0 then none else some path);
  delete = λ s object. ([], true);
  close = λ s object. (s, true);
  status = λ s object. (s, some (5, length s));
  sync = λ s object. (99 ∷ s, true);
  read = λ s object length offset. (s, take length s, true);
  write = λ s object bytes offset. (bytes ++ s, length bytes, true);
  get_all = λ s namespace. some ((111 ∷ []) ∷ (112 ∷ 113 ∷ []) ∷ []);
  get_by_prefix = λ s namespace prefix. none;
}

abbrev pub named : Object
named = record { index = 0; namespace = 110 ∷ []; name = 111 ∷ []; ref_count = 1 }

abbrev pub unnamed : Object
unnamed = record { index = 0; namespace = 110 ∷ []; name = []; ref_count = 1 }

abbrev first : Write
first = record { bytes = 1 ∷ 2 ∷ 3 ∷ []; offset = 0 }

abbrev second : List Write
second = record { bytes = 4 ∷ []; offset = 3 } ∷ []

abbrev request_of : Object → Message
request_of o = write_request blank 7 tens o (first ∷ second) semantics

-- Behind the bytes of the writes there is one of the next message.
abbrev pub serving : Serving (List ℕ)
serving = record {
  state = 8 ∷ [];
  statistics = Statistics.new false;
  chunk = MemoryChunk.new 4096 16;
  incoming = 1 ∷ 2 ∷ 3 ∷ 4 ∷ 77 ∷ [];
}

writes_fit : All (WriteFits 16) (first ∷ second)
writes_fit = ((omega arith, omega arith), ((omega arith, omega arith), tt))

named-CanSend : CanSend blank 7 tens semantics named (first ∷ second)
unfolding write_request new set_semantics append_n can_append appended operation add_operation
    extend get_count append_each total le_bytes
named-CanSend = (
  ((λ e. absurd (omega arith)), tt),
  ((λ e. absurd (omega arith)), tt),
  omega arith,
  (omega arith, (omega arith, tt)),
  omega arith,
)

unnamed-CanSend : CanSend blank 7 tens semantics unnamed (first ∷ second)
unfolding write_request new set_semantics append_n can_append appended operation add_operation
    extend get_count append_each total le_bytes
unnamed-CanSend = (
  ((λ e. absurd (omega arith)), tt),
  tt,
  omega arith,
  (omega arith, (omega arith, tt)),
  omega arith,
)

handle_write-write_local_example :
    (v' : Serving (List ℕ)) × (handle_write blank tens in_memory
        (arrived (request_of named))
        serving
      ≡ some (
        v',
        answered tens
            (reply_to blank (arrived (request_of named)) (on_wire semantics))
            (map count_fields (3 ∷ 1 ∷ [])),
      ))
    × Ready 4096 16 v' (99 ∷ 4 ∷ 1 ∷ 2 ∷ 3 ∷ 8 ∷ []) (77 ∷ [])
    × (write_local in_memory named (first ∷ second) (8 ∷ [])
        ≡ some (4 ∷ 1 ∷ 2 ∷ 3 ∷ 8 ∷ [], 3 ∷ 1 ∷ [], true))
unfolding write_each synced write_request joined can_append set_semantics appended le_bytes
handle_write-write_local_example =
    handle_write-write_local blank tens in_memory 4096 16 (omega arith) (omega arith) 7 tens-pos
      semantics named (first ∷ second) (arrived (request_of named)) serving (111 ∷ []) (77 ∷ [])
      named-CanSend writes_fit refl refl (arrived-Arrived (request_of named)) refl

handle_write-unopened_example :
    (v' : Serving (List ℕ)) × (handle_write blank tens in_memory
        (arrived (request_of unnamed))
        serving
      ≡ unopened blank tens in_memory 4096 16
          (omega arith)
          (omega arith)
          storage
          v'
          (reply_to blank (arrived (request_of unnamed)) (on_wire semantics)))
    × Ready 4096 16 v' (8 ∷ []) (77 ∷ [])
unfolding write_request joined can_append set_semantics appended le_bytes
handle_write-unopened_example =
    handle_write-unopened blank tens in_memory 4096 16 (omega arith) (omega arith) 7 tens-pos
      semantics unnamed (first ∷ second) (arrived (request_of unnamed)) serving (77 ∷ [])
      unnamed-CanSend writes_fit refl refl (arrived-Arrived (request_of unnamed)) refl

abbrev counted : List ℕ
counted = written blank tens in_memory tens-pos (111 ∷ []) (8 ∷ []) (first ∷ second)

abbrev replied : Message
replied = write_reply blank tens in_memory tens-pos (arrived (request_of named)) counted

write_result-write_answers_example :
    (write_answers tens (reply_to blank (arrived (request_of named)) (on_wire semantics)) counted
      ≡ some replied)
    × (write_result storage (first ∷ second) (arrived replied) ≡ (counted, true))
unfolding write_each new_reply append_n can_append appended operation add_operation extend get_count
    append_each total le_bytes
write_result-write_answers_example =
    write_result-write_answers blank tens in_memory tens-pos semantics (111 ∷ []) (8 ∷ []) first
      second (arrived (request_of named)) (arrived replied) refl (omega arith, (omega arith, tt))
      (omega arith, (omega arith, tt)) (omega arith) (arrived-Arrived replied)
