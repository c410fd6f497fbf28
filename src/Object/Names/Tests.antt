-- ===== src/Object/Names/Tests.antt =====
-- Objects by their names, a client and a server.
use julea.Common.{Option, u64, ◌+◌, ℕ, ◌≡◌, refl, true, false, some, List, [], ◌∷◌, map, arith, All}
use julea.Semantics.{Semantics, storage, network}
use julea.Message.{
  Message, new, append_n, can_append, appended, add_operation, extend, get_count, le_bytes,
  new_reply,
}
use julea.Message.Reserve.{total}
use julea.Message.Operations.{operation, append_each}
use julea.Message.Wire.{on_wire, set_semantics}
use julea.Statistics
use julea.Server.{reply_to}
use julea.Server.Answers.{answered}
use julea.Server.Object.{Serving}
use julea.Kv.Tests.{semantics, blank, tens, tens-pos, arrived, arrived-Arrived}
use julea.Kv.{request}
use julea.ObjectBackend.{open_and_delete}
use julea.Server.ObjectNames.{handle_remove, handle_create}
use julea.Object.Names.Sync.{handle_sync-sync_local}
use julea.Object.Names.{sync_request, sync_local}
use julea.Server.ObjectNames.{handle_sync}
use julea.Object.Names.Status.{read_stats-handle_status}
use julea.Object.Names.Stats.{stat_fields}
use julea.Object.Names.{status_request, status_local, read_stats}
use julea.Server.ObjectStatus.{handle_status}
use julea.Message.Operations.{operations}
use julea.Object.Names.Create.{handle_create-create_local}
use julea.Object.Names.{create_request, create_local, remove_request, remove_local, remove_result}
use julea.Object.Names.Requests.{InNamespace, NamesFit}
use julea.Object.Names.Delete.{outcomes, remove_reply, remove_result-handle_remove}
use julea.Object.Tests.{in_memory, named, unnamed, serving}

-- The first object is deleted, the second cannot be opened.
abbrev remove_message : Message
remove_message = remove_request blank 7 tens named (unnamed ∷ []) semantics

abbrev removed : Message
removed =
    remove_reply blank tens in_memory (arrived remove_message)
      (outcomes in_memory (named ∷ unnamed ∷ []) (8 ∷ []))

names_fit : NamesFit blank 7 tens 4 semantics named (unnamed ∷ [])
unfolding remove_request new set_semantics append_n can_append appended operation add_operation
    extend get_count append_each total le_bytes request
names_fit =
    (((λ e. absurd (omega arith)), tt), omega arith, (omega arith, (omega arith, tt)), omega arith)

names_in : All (InNamespace (110 ∷ [])) (named ∷ unnamed ∷ [])
names_in = ((refl, ((λ e. absurd (omega arith)), tt)), ((refl, tt), tt))

remove_result-handle_remove_example :
    (v' : Serving (List ℕ)) × (handle_remove blank tens in_memory (arrived remove_message) serving
      ≡ some (v', some removed))
    × (v'.state ≡ (remove_local in_memory (named ∷ unnamed ∷ []) (8 ∷ []) true).0)
    × (remove_result storage (arrived removed)
        ≡ (remove_local in_memory (named ∷ unnamed ∷ []) (8 ∷ []) true).1)
unfolding outcomes open_and_delete new_reply append_n can_append appended operation add_operation
    extend get_count append_each total le_bytes
remove_result-handle_remove_example =
    remove_result-handle_remove blank tens in_memory 7 tens-pos semantics named (unnamed ∷ [])
      (arrived remove_message) (arrived removed) serving refl names_fit names_in
      (omega arith, (omega arith, tt)) (arrived-Arrived remove_message) (arrived-Arrived removed)

fails : (remove_local in_memory (named ∷ unnamed ∷ []) (8 ∷ []) true).1 ≡ false
unfolding remove_local open_and_delete
fails = refl

-- Without a flush.
abbrev unflushed : Semantics
unflushed = record semantics { persistency = network }

abbrev create_message : Message
create_message = create_request blank 7 tens named (unnamed ∷ []) unflushed

create_fits : NamesFit blank 7 tens 3 unflushed named (unnamed ∷ [])
unfolding create_request new set_semantics append_n can_append appended operation add_operation
    extend get_count append_each total le_bytes request
create_fits =
    (((λ e. absurd (omega arith)), tt), omega arith, (omega arith, (omega arith, tt)), omega arith)

handle_create-create_local_example :
    (v' : Serving (List ℕ)) × (handle_create blank tens in_memory (arrived create_message) serving
      ≡ some (
        v',
        answered tens (reply_to blank (arrived create_message) (on_wire unflushed)) ([] ∷ [] ∷ []),
      ))
    × (v'.state ≡ 8 ∷ [])
    × (v'.statistics.files_created ≡ u64 (0 + 2))
unfolding create_local Statistics.new
handle_create-create_local_example =
    handle_create-create_local blank tens in_memory 7 tens-pos unflushed named (unnamed ∷ [])
      (arrived create_message) serving (8 ∷ []) true (λ e. absurd (ground (arith, e))) create_fits
      names_in (omega arith) refl (arrived-Arrived create_message)

abbrev sync_message : Message
sync_message = sync_request blank 7 tens named (named ∷ []) semantics

sync_fits : NamesFit blank 7 tens 9 semantics named (named ∷ [])
unfolding sync_request new set_semantics append_n can_append appended operation add_operation extend
    get_count append_each total le_bytes request
sync_fits =
    (((λ e. absurd (omega arith)), tt), omega arith, (omega arith, (omega arith, tt)), omega arith)

sync_in : All (InNamespace (110 ∷ [])) (named ∷ named ∷ [])
sync_in =
    ((refl, ((λ e. absurd (omega arith)), tt)), ((refl, ((λ e. absurd (omega arith)), tt)), tt))

handle_sync-sync_local_example :
    (v' : Serving (List ℕ)) × (handle_sync blank tens in_memory (arrived sync_message) serving
      ≡ some (
        v',
        answered tens (reply_to blank (arrived sync_message) (on_wire semantics)) ([] ∷ [] ∷ []),
      ))
    × (v'.state ≡ 99 ∷ 99 ∷ 8 ∷ [])
    × (v'.statistics.sync_count ≡ u64 (0 + 2))
unfolding sync_local Statistics.new
handle_sync-sync_local_example =
    handle_sync-sync_local blank tens in_memory 7 tens-pos semantics named (named ∷ [])
      (arrived sync_message) serving (99 ∷ 99 ∷ 8 ∷ []) true sync_fits sync_in (omega arith) refl
      (arrived-Arrived sync_message)

abbrev status_message : Message
status_message = status_request blank 7 tens named (named ∷ []) semantics

status_fits : NamesFit blank 7 tens 8 semantics named (named ∷ [])
unfolding status_request new set_semantics append_n can_append appended operation add_operation
    extend get_count append_each total le_bytes request
status_fits =
    (((λ e. absurd (omega arith)), tt), omega arith, (omega arith, (omega arith, tt)), omega arith)

-- The time and the size of each object.
abbrev stats : List (Option (ℕ × ℕ))
stats = some (5, 1) ∷ some (5, 1) ∷ []

abbrev stat_reply : Message
stat_reply = operations tens (new_reply blank (arrived status_message)) (map stat_fields stats)

read_stats-handle_status_example :
    (v' : Serving (List ℕ)) × (handle_status blank tens in_memory (arrived status_message) serving
      ≡ some (v', stat_reply))
    × (v'.state ≡ 8 ∷ [])
    × (read_stats (named ∷ named ∷ []) (arrived stat_reply) ≡ (5, 1) ∷ (5, 1) ∷ [])
unfolding status_local new_reply append_n can_append appended operation add_operation extend
    get_count append_each total le_bytes
read_stats-handle_status_example =
    read_stats-handle_status blank tens in_memory 7 tens-pos semantics named (named ∷ [])
      (arrived status_message) (arrived stat_reply) serving (8 ∷ []) stats true status_fits sync_in
      refl ((omega arith, omega arith), ((omega arith, omega arith), tt))
      (omega arith, (omega arith, tt)) (arrived-Arrived status_message) (arrived-Arrived stat_reply)
